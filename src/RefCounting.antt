-- ===== src/RefCounting.antt =====
-- `RefCountable` and `TSharedPtr` of ClientNetworkCore/RefCounting.h. A pointer variable is a slot of
-- `pointers`, an object a number; `_ptr` is `none` where it is null. An object whose count comes to 0
-- is deleted. Each operation is one step.
pub mod Counts
mod Tests
use jam_client_prototype.Prelude.{
  ℕ, ◌+◌, ◌-◌, Bool, true, false, Option, none, some, List, ◌∷◌, ◌==◌, if◌then◌else◌, get_or, set,
}

pub record Heap : Type 0 where
  pub ref_count : ℕ → ℕ
  pub deleted : List ℕ
  pub pointers : List (Option ℕ)

abbrev pub pointer : Heap → ℕ → Option ℕ
pointer h i = get_or h.pointers i none

abbrev pub point : ℕ → Option ℕ → Heap → Heap
point i o h = record h { pointers = set h.pointers i o }

unfoldable pub add_ref : ℕ → Heap → Heap
add_ref o h = record h { ref_count = λ x. if x == o then h.ref_count x + 1 else h.ref_count x }

unfoldable pub release_ref : ℕ → Heap → Heap
release_ref o h =
    let count = h.ref_count o - 1 in
    record h {
      ref_count = λ x. if x == o then count else h.ref_count x;
      deleted = if count == 0 then o ∷ h.deleted else h.deleted;
    }

-- `TSharedPtr::Set` and `TSharedPtr::Release`
unfoldable pub set_pointer : ℕ → Option ℕ → Heap → Heap
unfolding add_ref
set_pointer i none h = point i none h
set_pointer i (some o) h = add_ref o (point i (some o) h)

unfoldable pub release_pointer : ℕ → Heap → Heap
unfolding release_ref
release_pointer i h = elim (pointer h i) [ none ↦ h | some o ↦ point i none (release_ref o h) ]

abbrev pub same_pointer : Option ℕ → Option ℕ → Bool
same_pointer none none = true
same_pointer none (some b) = false
same_pointer (some a) none = false
same_pointer (some a) (some b) = a == b

-- `operator=`, from the variable `j` to the variable `i`.
unfoldable pub copy_assign : ℕ → ℕ → Heap → Heap
unfolding set_pointer release_pointer
copy_assign i j h = elim (same_pointer (pointer h i) (pointer h j)) [
  | true ↦ h
  | false ↦ let r = release_pointer i h in set_pointer i (pointer r j) r
]

unfoldable pub move_assign : ℕ → ℕ → Heap → Heap
unfolding release_pointer
move_assign i j h = let r = release_pointer i h in let t = point i (pointer r j) r in point j none t
