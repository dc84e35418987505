-- ===== src/RefCounting/Tests.antt =====
-- Two objects, the first with two pointers to it and a reference of its own.
use jam_client_prototype.Prelude.Maps.{member}
use jam_client_prototype.RefCounting.{Heap, pointer, copy_assign}
use jam_client_prototype.RefCounting.Counts.{IsCounted, copy_assign-IsCounted}
use jam_client_prototype.Prelude.{ℕ, ◌≡◌, refl, some, [], ◌∷◌, arith, ◌==◌, if◌then◌else◌}

abbrev held_once : ℕ → ℕ
held_once x = if x == 1 then 1 else 0

abbrev two_objects : Heap
two_objects = record {
  ref_count = λ x. if x == 1 then 3 else if x == 2 then 1 else 0;
  deleted = [];
  pointers = some 1 ∷ (some 1 ∷ (some 2 ∷ []));
}

two_objects-IsCounted : IsCounted held_once two_objects
unfolding member
two_objects-IsCounted = record { counts = λ x. ground arith; gone = λ x m. absurd (cc) }

-- Object 2 loses its last pointer and is deleted.
second-deleted : (copy_assign 2 0 two_objects).deleted ≡ 2 ∷ []
unfolding copy_assign
second-deleted = refl

copy_assign-IsCounted_example :
    IsCounted held_once (copy_assign 2 0 two_objects)
    × (pointer (copy_assign 2 0 two_objects) 2 ≡ pointer two_objects 0)
copy_assign-IsCounted_example =
    copy_assign-IsCounted held_once 2 0 two_objects (omega arith) (omega arith)
      two_objects-IsCounted
