-- ===== src/DeadLockProfiler/Tests.antt =====
-- Concrete lock orders.
use jam_client_prototype.Prelude.Maps.{member, find}
use jam_client_prototype.DeadLockProfiler.{
  History, deadlock, check_cycle, Profiler, push_lock, next_locks, detected,
}
use jam_client_prototype.DeadLockProfiler.Graph.{Edge, Acyclic, settled, Settled-no-Trail}
use jam_client_prototype.DeadLockProfiler.Cycle.{Decided, check_cycle_decides}
use jam_client_prototype.DeadLockProfiler.Names.{IsOrdered}
use jam_client_prototype.DeadLockProfiler.Locks.{Pushes, Detects, push_lock_lem}
use jam_client_prototype.Prelude.{ℕ, ◌<◌, ◌≡◌, refl, ◌⊎◌, true, [], ◌∷◌, arith, length}

-- 0 before 1 before 2 before 0.
abbrev ring : History
ring = (0, 1 ∷ []) ∷ ((1, 2 ∷ []) ∷ ((2, 0 ∷ []) ∷ []))

ring-printed : check_cycle 3 ring ≡ deadlock ((2, 0) ∷ ((1, 2) ∷ ((0, 1) ∷ [])))
unfolding check_cycle
ring-printed = refl

ring-bounded : (a b : ℕ) → Edge ring a b → (a < 3) × (b < 3)
unfolding Edge member next_locks find
ring-bounded a b e = ground arith

ring-loopless : (a : ℕ) → Edge ring a a → ⊥
unfolding Edge member next_locks find
ring-loopless a e = ground arith

check_cycle_decides_example : Decided 3 ring (check_cycle 3 ring)
check_cycle_decides_example = check_cycle_decides 3 ring ring-bounded ring-loopless

-- Two names, the second taken under the first.
abbrev pair : Profiler
pair = record {
  name_to_id = (10, 0) ∷ ((20, 1) ∷ []);
  id_to_name = (0, 10) ∷ ((1, 20) ∷ []);
  lock_history = (0, 1 ∷ []) ∷ [];
}

pair-Edge : (a b : ℕ) → Edge pair.lock_history a b → (a ≡ 0) × (b ≡ 1)
unfolding Edge member next_locks find
pair-Edge a b e = ground arith

pair-IsOrdered : IsOrdered pair
unfolding find Acyclic
pair-IsOrdered = record {
  named = λ name lock_id e. ground arith;
  bounded = λ a b e. let h = pair-Edge a b e in (omega (arith, h.0), omega (arith, h.1));
  loopless = λ a e. let h = pair-Edge a a e in omega (arith, h.0, h.1);
  acyclic = λ c lines t.
      Settled-no-Trail
        (settled (λ w e.
          settled (λ x f. absurd (omega (arith, (pair-Edge c w e).1, (pair-Edge w x f).0)))))
        t;
}

-- The first name under the second closes a cycle.
pair-printed : push_lock 10 (1 ∷ []) pair ≡ detected ((1, 0) ∷ ((0, 1) ∷ []))
unfolding push_lock
pair-printed = refl

pair-range : (v : ℕ) → member v (1 ∷ []) ≡ true → v < length pair.name_to_id
unfolding member
pair-range v m = ground arith

push_lock_lem_example :
    Pushes 10 (1 ∷ []) pair (push_lock 10 (1 ∷ []) pair)
    ⊎ Detects 10 (1 ∷ []) pair (push_lock 10 (1 ∷ []) pair)
push_lock_lem_example = push_lock_lem 10 (1 ∷ []) pair pair-IsOrdered pair-range
