-- ===== src/Service/Handshake.antt =====
-- `Service::FindOrCreateUdpSession`: one session for an endpoint.
use jam_client_prototype.Prelude.{
  ℕ, ◌+◌, ◌≡◌, refl, ap, inl, inr, true, false, Option, none, some, List, [], ◌∷◌, arith, ◌==◌,
  if◌then◌else◌, ==_iff, ==-refl, Bool-cases, Option-cases,
}
use jam_client_prototype.ReliableUdp.{assign, find, erase}
use jam_client_prototype.Service.{
  Service, member, insert, add_udp_session, complete_udp_handshake, find_session, adopt,
  find_or_create_udp_session,
}
use jam_client_prototype.Service.Sets.{IsCounted}

find_session-lem :
    (endpoint : ℕ → ℕ) (from x : ℕ) (xs : List ℕ)
    → find_session endpoint from xs ≡ some x
    → (endpoint x ≡ from) × (member x xs ≡ true)
unfolding find_session member
find_session-lem endpoint from x [] h = absurd (ground arith)
find_session-lem endpoint from x (y ∷ ys) h = elim (Bool-cases (endpoint y == from)) [
  | inl e ↦
      let found : some y ≡ some x = rw e at h in
      let same : y ≡ x = cc in
      (rw (← same) ((==_iff (endpoint y) from).0 e), rw (same, ==-refl x) refl)
  | inr e ↦
      let rest = find_session-lem endpoint from x ys (rw e at h) in (rest.0, ground (arith, rest.1))
]

-- A new session is in the service at once, under its endpoint; nothing is left waiting.
adopt-eq :
    (from x : ℕ) (s : Service)
    → s.pending_udp_sessions ≡ []
    → member x s.udp_sessions ≡ false
    → adopt from x s ≡ record s {
      remote_endpoint = λ y. if y == x then from else s.remote_endpoint y;
      udp_sessions = x ∷ s.udp_sessions;
      udp_session_count = s.udp_session_count + 1;
      pending_udp_sessions = [];
    }
unfolding adopt complete_udp_handshake find erase assign add_udp_session insert
adopt-eq from x s p h = rw p (ground (arith, ==-refl from, h))

-- What a datagram's sender is given: the session `x`, now and whenever it comes again.
pub record Found (from : ℕ) (s : Service) (r : Option ℕ × Service) : Type 0 where
  pub session : ℕ
  pub answer : r.0 ≡ some session
  pub endpoint : r.1.remote_endpoint session ≡ from
  pub inside : member session r.1.udp_sessions ≡ true
  pub settled : r.1.pending_udp_sessions ≡ []
  pub counted : IsCounted r.1
  pub others :
      (y : ℕ) → member y s.udp_sessions ≡ true → r.1.remote_endpoint y ≡ s.remote_endpoint y
  pub again :
      (created : Option ℕ) → find_or_create_udp_session from created r.1 ≡ (some session, r.1)

found-eq :
    (from x : ℕ) (created : Option ℕ) (s : Service)
    → find_session s.remote_endpoint from s.udp_sessions ≡ some x
    → find_or_create_udp_session from created s ≡ (some x, s)
unfolding find_or_create_udp_session
found-eq from x created s e = rw (find_or_create_udp_session, e) refl

created-eq :
    (from x : ℕ) (s : Service)
    → find_session s.remote_endpoint from s.udp_sessions ≡ none
    → find from s.pending_udp_sessions ≡ none
    → find_or_create_udp_session from (some x) s ≡ (some x, adopt from x s)
unfolding find_or_create_udp_session
created-eq from x s e p = rw (find_or_create_udp_session, e, p) refl

created-Found :
    (from x : ℕ) (s : Service)
    → s.pending_udp_sessions ≡ []
    → IsCounted s
    → member x s.udp_sessions ≡ false
    → Found from s (some x, adopt from x s)
unfolding find_session member find
created-Found from x s p v h = rw (adopt-eq from x s p h) (record {
  session = x;
  answer = refl;
  endpoint = rw (==-refl x) refl;
  inside = rw (==-refl x) refl;
  settled = refl;
  counted = record {
    tcp_once = v.tcp_once;
    udp_once = (h, v.udp_once);
    tcp = v.tcp;
    udp = omega (arith, v.udp);
  };
  others = λ y inside. elim (Bool-cases (y == x)) [
    | inl e ↦ let same : y ≡ x = (==_iff y x).0 e in absurd (let k = h in ground arith)
    | inr e ↦ rw e refl
  ];
  again = λ created. found-eq from x created _ (rw (==-refl x, ==-refl from) refl);
})

known-Found :
    (from x : ℕ) (s : Service)
    → s.pending_udp_sessions ≡ []
    → IsCounted s
    → find_session s.remote_endpoint from s.udp_sessions ≡ some x
    → Found from s (some x, s)
known-Found from x s p v e =
    let found = find_session-lem s.remote_endpoint from x s.udp_sessions e in
    record {
      session = x;
      answer = refl;
      endpoint = found.0;
      inside = found.1;
      settled = p;
      counted = v;
      others = λ y inside. refl;
      again = λ created. found-eq from x created s e;
    }

-- With no handshake waiting, counts that are the sizes of the sets, and a factory that makes a
-- session that the service does not have, a datagram's sender gets a session of the service with
-- its endpoint. No handshake is left waiting, the counts stay right, the other sessions keep their
-- endpoints, and the same sender gets the same session again, with nothing changed.
pub find_or_create_udp_session-Found :
    (from x : ℕ) (s : Service)
    → s.pending_udp_sessions ≡ []
    → IsCounted s
    → member x s.udp_sessions ≡ false
    → Found from s (find_or_create_udp_session from (some x) s)
find_or_create_udp_session-Found from x s p v h =
    elim (Option-cases (find_session s.remote_endpoint from s.udp_sessions)) [
      | inl e ↦
          rw (created-eq from x s e (unfold find in ap (find from) p))
            (created-Found from x s p v h)
      | inr (y, e) ↦ rw (found-eq from y (some x) s e) (known-Found from y s p v e)
    ]
