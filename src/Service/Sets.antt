-- ===== src/Service/Sets.antt =====
-- The sets of a `Service`: each element once, so that the counts are their sizes.
use jam_client_prototype.Prelude.{
  ℕ, ◌+◌, ◌-◌, ◌≡◌, refl, inl, inr, true, false, ◌&&◌, not, List, [], ◌∷◌, arith, ◌==◌, ==_iff,
  ==-refl, Bool-cases, length,
}
use jam_client_prototype.SendBuffer.{ok, crash}
use jam_client_prototype.Service.{
  Service, member, insert, remove, add_tcp_session, release_tcp_session, add_udp_session,
  release_udp_session, create_service,
}

abbrev pub NoDup : List ℕ → Type 0
NoDup [] = Unit {0}
NoDup (x ∷ xs) = (member x xs ≡ false) × NoDup xs

member-remove : (x y : ℕ) (ys : List ℕ) → member y (remove x ys) ≡ (not (x == y) && member y ys)
unfolding member remove
member-remove x y [] = ground arith
member-remove x y (z ∷ ys) = ground (arith, member-remove x y ys)

remove-absent : (x : ℕ) (ys : List ℕ) → member x ys ≡ false → remove x ys ≡ ys
unfolding member remove
remove-absent x [] h = refl
remove-absent x (y ∷ ys) h = ground (arith, remove-absent x ys)

length-remove :
    (x : ℕ) (ys : List ℕ) → NoDup ys → member x ys ≡ true → length (remove x ys) + 1 ≡ length ys
unfolding member remove
length-remove x [] d h = absurd (ground arith)
length-remove x (y ∷ ys) d h = elim (Bool-cases (y == x)) [
  | inl e ↦
      let same : y ≡ x = (==_iff y x).0 e in
      let gone : remove x ys ≡ ys = remove-absent x ys (let n = d.0 in rw same at n) in
      rw e (ground (arith, gone))
  | inr e ↦ rw e (ground (arith, length-remove x ys d.1))
]

remove-NoDup : (x : ℕ) (ys : List ℕ) → NoDup ys → NoDup (remove x ys)
unfolding remove
remove-NoDup x [] d = tt
remove-NoDup x (y ∷ ys) d = elim (Bool-cases (y == x)) [
  | inl e ↦ rw e (remove-NoDup x ys d.1)
  | inr e ↦ rw e (ground (arith, member-remove x y ys, d.0), remove-NoDup x ys d.1)
]

-- The counts are the sizes of the sets.
pub record IsCounted (s : Service) : Type 0 where
  pub tcp_once : NoDup s.tcp_sessions
  pub udp_once : NoDup s.udp_sessions
  pub tcp : s.tcp_session_count ≡ length s.tcp_sessions
  pub udp : s.udp_session_count ≡ length s.udp_sessions

pub create_service-IsCounted : IsCounted create_service
unfolding create_service
create_service-IsCounted = record { tcp_once = tt; udp_once = tt; tcp = refl; udp = refl }

insert-NoDup : (x : ℕ) (ys : List ℕ) → member x ys ≡ false → NoDup ys → NoDup (insert x ys)
unfolding insert
insert-NoDup x ys h d = rw h (h, d)

-- Adding a session that is not in the service keeps the counts.
pub add_tcp_session-IsCounted :
    (x : ℕ) (s : Service)
    → member x s.tcp_sessions ≡ false
    → IsCounted s
    → IsCounted (add_tcp_session x s)
unfolding add_tcp_session
add_tcp_session-IsCounted x s h v = record {
  tcp_once = insert-NoDup x s.tcp_sessions h v.tcp_once;
  udp_once = v.udp_once;
  tcp = rw h (omega (arith, v.tcp));
  udp = v.udp;
}

pub add_udp_session-IsCounted :
    (x : ℕ) (s : Service)
    → member x s.udp_sessions ≡ false
    → IsCounted s
    → IsCounted (add_udp_session x s)
unfolding add_udp_session
add_udp_session-IsCounted x s h v = record {
  tcp_once = v.tcp_once;
  udp_once = insert-NoDup x s.udp_sessions h v.udp_once;
  tcp = v.tcp;
  udp = rw h (omega (arith, v.udp));
}

-- A TCP session in the service is released once: it is gone then, the counts are kept, and releasing
-- it again crashes.
pub release_tcp_session-lem :
    (x : ℕ) (s : Service)
    → member x s.tcp_sessions ≡ true
    → IsCounted s
    → (t : Service) × ((release_tcp_session x s ≡ ok t)
        × IsCounted t
        × (length t.tcp_sessions + 1 ≡ length s.tcp_sessions)
        × (release_tcp_session x t ≡ crash))
unfolding release_tcp_session
release_tcp_session-lem x s h v =
    let size = length-remove x s.tcp_sessions v.tcp_once h in
    let gone = member-remove x x s.tcp_sessions in
    let t = record s {
      tcp_sessions = remove x s.tcp_sessions;
      tcp_session_count = s.tcp_session_count - 1;
    } in
    (
      t,
      (
        rw h refl,
        record {
          tcp_once = remove-NoDup x s.tcp_sessions v.tcp_once;
          udp_once = v.udp_once;
          tcp = omega (arith, v.tcp, size);
          udp = v.udp;
        },
        size,
        ground (arith, gone, ==-refl x),
      ),
    )

-- Where the counts are the sizes of the sets, a UDP session in the service is released without a
-- crash: the set has one less, the counts are the sizes again, and releasing it again crashes.
pub release_udp_session-lem :
    (x : ℕ) (s : Service)
    → member x s.udp_sessions ≡ true
    → IsCounted s
    → (t : Service) × ((release_udp_session x s ≡ ok t)
        × IsCounted t
        × (length t.udp_sessions + 1 ≡ length s.udp_sessions)
        × (release_udp_session x t ≡ crash))
unfolding release_udp_session
release_udp_session-lem x s h v =
    let size = length-remove x s.udp_sessions v.udp_once h in
    let gone = member-remove x x s.udp_sessions in
    let t = record s {
      udp_sessions = remove x s.udp_sessions;
      udp_session_count = s.udp_session_count - 1;
    } in
    (
      t,
      (
        rw h refl,
        record {
          tcp_once = v.tcp_once;
          udp_once = remove-NoDup x s.udp_sessions v.udp_once;
          tcp = v.tcp;
          udp = omega (arith, v.udp, size);
        },
        size,
        ground (arith, gone, ==-refl x),
      ),
    )
