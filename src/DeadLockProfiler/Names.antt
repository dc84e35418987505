-- ===== src/DeadLockProfiler/Names.antt =====
-- The ids that `PushLock` issues to the names of the locks, and the profilers that it keeps.
use jam_client_prototype.Prelude.Maps.{member, find, assign, find-assign}
use jam_client_prototype.DeadLockProfiler.{next_locks, Profiler, create_profiler, identify}
use jam_client_prototype.DeadLockProfiler.Graph.{Edge, Acyclic, Trail-start}
use jam_client_prototype.Prelude.{
  ℕ, suc, ◌≤◌, ◌<◌, ◌≡◌, refl, ◌∙◌, inl, inr, none, some, List, [], ◌∷◌, arith, ==-refl,
  Option-cases, length,
}

length-assign {ℓ} :
    {V : Type ℓ} (k : ℕ) (v : V) (m : List (ℕ × V))
    → find k m ≡ none
    → length (assign k v m) ≡ suc (length m)
unfolding find assign
length-assign k v [] h = refl
length-assign k v ((j, w) ∷ m) h = ground (arith, length-assign k v m)

-- Each name has an id of its own below their number, and the lock order is one of such ids, without
-- a cycle.
pub record IsOrdered (p : Profiler) : Type 0 where
  pub named :
      (name lock_id : ℕ)
      → find name p.name_to_id ≡ some lock_id
      → (lock_id < length p.name_to_id) × (find lock_id p.id_to_name ≡ some name)
  pub bounded :
      (a b : ℕ) → Edge p.lock_history a b → (a < length p.name_to_id) × (b < length p.name_to_id)
  pub loopless : (a : ℕ) → Edge p.lock_history a a → ⊥
  pub acyclic : Acyclic p.lock_history

no_name : (name lock_id : ℕ) → find name create_profiler.name_to_id ≡ some lock_id → ⊥
unfolding create_profiler find
no_name name lock_id e = cc

create_profiler-no_Edge : (a b : ℕ) → Edge create_profiler.lock_history a b → ⊥
unfolding create_profiler Edge member next_locks find
create_profiler-no_Edge a b e = cc

pub create_profiler-IsOrdered : IsOrdered create_profiler
unfolding create_profiler
create_profiler-IsOrdered = record {
  named = λ name lock_id e. absurd (no_name name lock_id e);
  bounded = λ a b e. absurd (create_profiler-no_Edge a b e);
  loopless = λ a e. create_profiler-no_Edge a a e;
  acyclic =
      unfold Acyclic in
      λ c lines t. let first = Trail-start t in create_profiler-no_Edge c first.0 first.1;
}

identify-known :
    (name lock_id : ℕ) (p : Profiler)
    → find name p.name_to_id ≡ some lock_id
    → identify name p ≡ (lock_id, p)
unfolding identify
identify-known name lock_id p e = rw (identify, e) refl

abbrev issued : ℕ → Profiler → Profiler
issued name p = record p {
  name_to_id = assign name (length p.name_to_id) p.name_to_id;
  id_to_name = assign (length p.name_to_id) name p.id_to_name;
}

identify-new :
    (name : ℕ) (p : Profiler)
    → find name p.name_to_id ≡ none
    → identify name p ≡ (length p.name_to_id, issued name p)
unfolding identify
identify-new name p e = rw (identify, e) refl

-- The profiler and the id that come out of the lookup.
abbrev pub Identified : ℕ → Profiler → ℕ × Profiler → Type 0
Identified name p (lock_id, q) =
    IsOrdered q
    × ((find name q.name_to_id ≡ some lock_id)
        × ((length p.name_to_id ≤ length q.name_to_id) × (q.lock_history ≡ p.lock_history)))

pub identify-IsOrdered :
    (name : ℕ) (p : Profiler) → IsOrdered p → Identified name p (identify name p)
identify-IsOrdered name p o = elim (Option-cases (find name p.name_to_id)) [
  | inr known ↦ rw (identify-known name known.0 p known.1) (o, (known.1, (omega arith, refl)))
  | inl new ↦
      let n = length p.name_to_id in
      let more = length-assign name n p.name_to_id new in
      rw (identify-new name p new) (
        record {
          named = λ nm lock_id e. ground (
            arith,
            more,
            find-assign name nm n p.name_to_id,
            find-assign n lock_id name p.id_to_name,
            o.named nm lock_id,
          );
          bounded = λ a b e.
              let h = o.bounded a b e in (omega (arith, h.0, more), omega (arith, h.1, more));
          loopless = o.loopless;
          acyclic = o.acyclic;
        },
        (
          find-assign name name n p.name_to_id ∙ rw (==-refl name) refl,
          (omega (arith, more), refl),
        ),
      )
]
