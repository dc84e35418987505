-- ===== src/DeadLockProfiler/Cycle.antt =====
-- `Dfs` and `CheckCycle` end, and decide whether the lock order has a cycle.
use mathlib.Core.Path.{subst}
use jam_client_prototype.Prelude.Maps.{member, find}
use jam_client_prototype.DeadLockProfiler.{
  History, Search, Verdict, clear, deadlock, ◌>>=◌, order, is_finished, discover, finish, explore,
  dfs, dfs_all, start, check_cycle, next_locks,
}
use jam_client_prototype.DeadLockProfiler.Graph.{
  Edge, Trail, Acyclic, Settled-no-Trail, Trail-start,
}
use jam_client_prototype.DeadLockProfiler.Dfs.{
  Later-refl, undiscovered, undiscovered-replicate, undiscovered-set, rank, place, Inv, Later,
  Later-trans,
}
use jam_client_prototype.DeadLockProfiler.Steps.{
  Attached, Later-discover, Inv-discover, Later-finish, finish-finished, Inv-finish,
}
use jam_client_prototype.DeadLockProfiler.Explore.{Fate, Visited, Fate-bind, explore_lem}
use jam_client_prototype.Prelude.{
  ℕ, zero, suc, ◌+◌, ◌<◌, ◌≡◌, refl, ap, ◌⊎◌, inl, inr, true, false, none, some, List, [], ◌∷◌,
  arith, ◌==◌, ==_iff, Bool-cases, Option-cases, length, length-replicate, get_or-replicate,
}

-- The branches of `Dfs`.
dfs-white :
    (g : History) (fuel here : ℕ) (s : Search)
    → order s here ≡ none
    → dfs g (suc fuel) here s ≡ (
        explore (dfs g fuel) here (next_locks here g) (discover here s) >>= λ t.
        clear (finish here t))
unfolding dfs explore next_locks ◌>>=◌
dfs-white g fuel here s e = elim (Option-cases (find here g)) [
  | inl f ↦ rw (dfs, next_locks, e, f) refl
  | inr f ↦ rw (dfs, next_locks, e, f.1) refl
]

dfs-seen :
    (g : History) (fuel here o : ℕ) (s : Search)
    → order s here ≡ some o
    → dfs g (suc fuel) here s ≡ clear s
unfolding dfs
dfs-seen g fuel here o s e = rw (dfs, e) refl

-- The search came to its end and there is no cycle, or it printed one.
abbrev pub Decided : ℕ → History → Verdict → Type 0
Decided n g r =
    ((t : Search) × ((r ≡ clear t) × Acyclic g))
    ⊎ ((c : ℕ) × ((lines : List (ℕ × ℕ)) × ((r ≡ deadlock lines) × Trail g c c lines)))

module _ (n : ℕ) (g : History) (bounded : (a b : ℕ) → Edge g a b → (a < n) × (b < n))
    (loopless : (a : ℕ) → Edge g a a → ⊥) where
  close :
      (s : Search) (here : ℕ) (stack : List ℕ) (t : Search)
      → here < n
      → Later s (discover here s)
      → Visited n g (discover here s) (here ∷ stack) (λ v. member v (next_locks here g) ≡ true) t
      → Visited n g s stack (λ v. here ≡ v) (finish here t)
  close s here stack t h l (i, (l', q)) =
      let size : here < length t.finished = omega (arith, i.finished_size, h) in
      (
        Inv-finish n g t here stack i h (λ w e. q w (unfold Edge in e)),
        (
          Later-trans l (Later-trans l' (Later-finish n g t here size)),
          λ v e.
              subst (λ x. is_finished (finish here t) x ≡ true) e (finish-finished n g t here size),
        ),
      )

  -- `Dfs(here)` on a lock that is not discovered.
  dfs_lem :
      (fuel : ℕ) (s : Search) (here : ℕ) (stack : List ℕ)
      → Inv n g s stack
      → here < n
      → order s here ≡ none
      → Attached n g s here stack
      → undiscovered s.discovered_order < fuel
      → Fate g (dfs g fuel here s) (Visited n g s stack (λ v. here ≡ v))
  dfs_lem zero s here stack i h white att u = absurd (omega arith)
  dfs_lem (suc fuel) s here stack i h white att u =
      let l : here < length s.discovered_order = omega (arith, i.order_size, h) in
      let t = discover here s in
      let fewer = undiscovered-set s.discovered_order here s.discovered_count l white in
      let inner =
        explore_lem n g bounded loopless fuel (dfs g fuel) (dfs_lem fuel) here stack
          (next_locks here g) t (Inv-discover n g s here stack i h white att)
          (λ w m. unfold Edge in m) (omega (arith, fewer, u)) in
      rw (dfs-white g fuel here s white) (
        Fate-bind g (explore (dfs g fuel) here (next_locks here g) t) (λ x. clear (finish here x)) _
          (Visited n g s stack (λ v. here ≡ v)) inner
          (λ x v. inl (_, (refl, close s here stack x h (Later-discover n g s here l white) v))))

  -- `Dfs` with nothing begun.
  visit :
      (s : Search) (here : ℕ)
      → Inv n g s []
      → here < n
      → Fate g (dfs g (n + 1) here s) (Visited n g s [] (λ v. here ≡ v))
  unfolding member
  visit s here i h = elim (Option-cases (order s here)) [
    | inl white ↦ dfs_lem (n + 1) s here [] i h white tt (omega (arith, i.room))
    | inr seen ↦
        let p : 0 < rank s here = rw (rank, seen.1) (omega arith) in
        let done : is_finished s here ≡ true = elim (Bool-cases (is_finished s here)) [
          | inl f ↦ f
          | inr f ↦ let m = i.begun here p f in absurd (cc)
        ] in
        let one : n + 1 ≡ suc n = omega arith in
        rw (one, dfs-seen g n here seen.0 s seen.1)
          (inl (s, (refl, (i, (Later-refl s, λ v e. subst (λ x. is_finished s x ≡ true) e done)))))
  ]

  -- `for (lockId = 0; lockId < lockCount; lockId++) Dfs(lockId);`
  dfs_all_lem :
      (k lock_id : ℕ) (s : Search)
      → lock_id + k ≡ n
      → Inv n g s []
      → ((v : ℕ) → v < lock_id → is_finished s v ≡ true)
      → Fate g
          (dfs_all g (n + 1) k lock_id s)
          (λ t. Inv n g t [] × ((v : ℕ) → v < n → is_finished t v ≡ true))
  unfolding dfs_all
  dfs_all_lem zero lock_id s e i q = inl (s, (refl, (i, λ v h. q v (omega arith))))
  dfs_all_lem (suc k) lock_id s e i q =
      Fate-bind g (dfs g (n + 1) lock_id s) (dfs_all g (n + 1) k (suc lock_id))
        (Visited n g s [] (λ v. lock_id ≡ v)) _ (visit s lock_id i (omega arith))
        (λ t v. dfs_all_lem k (suc lock_id) t (omega arith) v.0 (λ x h.
          elim (Bool-cases (lock_id == x)) [
            | inl same ↦ v.1.1 x ((==_iff lock_id x).0 same)
            | inr other ↦ v.1.0.finishes x (q x (ground arith))
          ]))

  fresh : (v : ℕ) → rank (start n) v ≡ 0
  unfolding start
  fresh v = ap place (get_or-replicate n v none)

  start_lem : Inv n g (start n) []
  unfolding start
  start_lem = record {
    order_size = length-replicate n none;
    finished_size = length-replicate n false;
    parent_size = length-replicate n none;
    room = omega (arith, undiscovered-replicate n);
    below = λ v. omega (arith, fresh v);
    begun = λ v p f. absurd (omega (arith, fresh v, p));
    chain = tt;
    settles = λ v f. absurd (let e = get_or-replicate n v false in cc);
  }

  -- Where the edges are between the `n` locks and no lock has an edge to itself, `CheckCycle` ends:
  -- without a crash where the lock order has no cycle, and otherwise with a crash that prints the
  -- edges of a cycle.
  pub check_cycle_decides : Decided n g (check_cycle n g)
  unfolding check_cycle Acyclic
  check_cycle_decides =
      elim (dfs_all_lem n 0 (start n) (omega arith) start_lem (λ v h. absurd (omega arith))) [
        | inl a ↦ inl (
          a.0,
          (
            a.1.0,
            λ c lines t.
                Settled-no-Trail
                  (a.1.1.0.settles c (a.1.1.1 c (bounded c (Trail-start t).0 (Trail-start t).1).0))
                  t,
          ),
        )
        | inr b ↦ inr b
      ]
