-- ===== src/RefCounting/Counts.antt =====
-- The count of an object is the number of pointers to it, and of the references that are held
-- without one; an object is not deleted while there are such.
use jam_client_prototype.Prelude.Maps.{member, get_or-set}
use jam_client_prototype.RefCounting.{
  Heap, pointer, point, add_ref, release_ref, set_pointer, release_pointer, same_pointer,
  copy_assign, move_assign,
}
use jam_client_prototype.Prelude.{
  ℕ, zero, suc, ◌+◌, ◌<◌, ◌≡◌, refl, sym, ap, ◌∙◌, inl, inr, true, false, Option, none, some, List,
  [], ◌∷◌, arith, ◌==◌, if◌then◌else◌, ==_iff, ==-refl, Bool-cases, Option-cases, length, get_or,
  set, length-set, get_or-set_self,
}

abbrev pub points_to : ℕ → Option ℕ → ℕ
points_to x none = 0
points_to x (some o) = if x == o then 1 else 0

abbrev pub holders : ℕ → List (Option ℕ) → ℕ
holders x [] = 0
holders x (o ∷ os) = points_to x o + holders x os

holders-set :
    (x i : ℕ) (os : List (Option ℕ)) (o : Option ℕ)
    → i < length os
    → holders x (set os i o) + points_to x (get_or os i none) ≡ holders x os + points_to x o
holders-set x i [] o h = absurd (omega arith)
holders-set x zero (p ∷ os) o h = omega arith
holders-set x (suc i) (p ∷ os) o h = omega (arith, holders-set x i os o (omega arith))

pointer-set :
    (i : ℕ) (o : Option ℕ) (h : Heap) → i < length h.pointers → pointer (set_pointer i o h) i ≡ o
unfolding set_pointer add_ref
pointer-set i none h l = get_or-set_self h.pointers i none none l
pointer-set i (some o) h l = get_or-set_self h.pointers i (some o) none l

-- `held` is the number of references to an object that no pointer stands for.
pub record IsCounted (held : ℕ → ℕ) (h : Heap) : Type 0 where
  pub counts : (x : ℕ) → h.ref_count x ≡ held x + holders x h.pointers
  pub gone : (x : ℕ) → member x h.deleted ≡ true → h.ref_count x ≡ 0

holders-positive :
    (x j : ℕ) (os : List (Option ℕ)) → j < length os → get_or os j none ≡ some x → 0 < holders x os
holders-positive x j [] l e = absurd (omega arith)
holders-positive x zero (o ∷ os) l e = rw e (ground arith)
holders-positive x (suc j) (o ∷ os) l e = omega (arith, holders-positive x j os (omega arith) e)

same_pointer-eq : (o p : Option ℕ) → same_pointer o p ≡ true → o ≡ p
same_pointer-eq none none h = refl
same_pointer-eq none (some b) h = absurd (cc)
same_pointer-eq (some a) none h = absurd (cc)
same_pointer-eq (some a) (some b) h = ap some ((==_iff a b).0 h)

same_pointer_refl : (o : Option ℕ) → same_pointer o o ≡ true
same_pointer_refl none = refl
same_pointer_refl (some a) = ==-refl a

-- The branches of `Release`.
release-null : (i : ℕ) (h : Heap) → pointer h i ≡ none → release_pointer i h ≡ h
unfolding release_pointer
release-null i h e = rw (release_pointer, e) refl

release-some :
    (i o : ℕ) (h : Heap)
    → pointer h i ≡ some o
    → release_pointer i h ≡ point i none (release_ref o h)
unfolding release_pointer
release-some i o h e = rw (release_pointer, e) refl

length-release : (i : ℕ) (h : Heap) → length (release_pointer i h).pointers ≡ length h.pointers
unfolding release_ref
length-release i h = elim (Option-cases (pointer h i)) [
  | inl e ↦ rw (release-null i h e) refl
  | inr e ↦ rw (release-some i e.0 h e.1) (length-set h.pointers i none)
]

-- `Release` makes the pointer null and leaves the others.
pointer-release :
    (i j : ℕ) (h : Heap)
    → i < length h.pointers
    → pointer (release_pointer i h) j ≡ (if i == j then none else pointer h j)
unfolding release_ref
pointer-release i j h l = elim (Option-cases (pointer h i)) [
  | inr e ↦ rw (release-some i e.0 h e.1) (get_or-set h.pointers i j none none l)
  | inl e ↦ rw (release-null i h e) (elim (Bool-cases (i == j)) [
    | inl q ↦ rw q (sym (ap (pointer h) ((==_iff i j).0 q)) ∙ e)
    | inr q ↦ rw q refl
  ])
]

release-pointer :
    (i : ℕ) (h : Heap) → i < length h.pointers → pointer (release_pointer i h) i ≡ none
release-pointer i h l = pointer-release i i h l ∙ rw (==-refl i) refl

-- Variables that point to different objects are different.
apart : (i j : ℕ) (h : Heap) → same_pointer (pointer h i) (pointer h j) ≡ false → (i == j) ≡ false
apart i j h e = elim (Bool-cases (i == j)) [
  | inr q ↦ q
  | inl q ↦
      let t : same_pointer (pointer h i) (pointer h j) ≡ true =
        ap (λ x. same_pointer (pointer h i) (pointer h x)) (sym ((==_iff i j).0 q))
        ∙ same_pointer_refl (pointer h i) in
      absurd (cc)
]

module _ (held : ℕ → ℕ) where
  pub set_pointer-IsCounted :
      (i : ℕ) (o : Option ℕ) (h : Heap)
      → i < length h.pointers
      → pointer h i ≡ none
      → ((x : ℕ) → o ≡ some x → 0 < h.ref_count x)
      → IsCounted held h
      → IsCounted held (set_pointer i o h)
  unfolding set_pointer add_ref
  set_pointer-IsCounted i none h l free live c = record {
    counts = λ x.
        let s = holders-set x i h.pointers none l in
        ground (arith, s, ap (points_to x) free, c.counts x);
    gone = c.gone;
  }
  set_pointer-IsCounted i (some o) h l free live c = record {
    counts = λ x.
        let s = holders-set x i h.pointers (some o) l in
        ground (arith, s, ap (points_to x) free, c.counts x);
    gone = λ x m. let p = live o refl in ground (arith, p, c.gone x m);
  }

  release_pointer-IsCounted :
      (i : ℕ) (h : Heap)
      → i < length h.pointers
      → IsCounted held h
      → IsCounted held (release_pointer i h)
  unfolding release_ref member
  release_pointer-IsCounted i h l c = elim (Option-cases (pointer h i)) [
    | inl e ↦ rw (release-null i h e) c
    | inr e ↦
        let o = e.0 in
        rw (release-some i o h e.1) (record {
          counts = λ x.
              let s = holders-set x i h.pointers none l in
              ground (arith, s, ap (points_to x) e.1, c.counts x);
          gone = λ x m. ground (arith, c.gone x);
        })
  ]

  copy_assign-same :
      (i j : ℕ) (h : Heap) → same_pointer (pointer h i) (pointer h j) ≡ true → copy_assign i j h ≡ h
  unfolding copy_assign
  copy_assign-same i j h e = rw (copy_assign, e) refl

  copy_assign-other :
      (i j : ℕ) (h : Heap)
      → same_pointer (pointer h i) (pointer h j) ≡ false
      → copy_assign i j h ≡ set_pointer i (pointer (release_pointer i h) j) (release_pointer i h)
  unfolding copy_assign
  copy_assign-other i j h e = rw (copy_assign, e) refl

  -- Where the counts are right, copying the pointer `j` to `i` keeps them right and deletes nothing
  -- that is still pointed to, and `i` then points where `j` did.
  pub copy_assign-IsCounted :
      (i j : ℕ) (h : Heap)
      → i < length h.pointers
      → j < length h.pointers
      → IsCounted held h
      → IsCounted held (copy_assign i j h) × (pointer (copy_assign i j h) i ≡ pointer h j)
  copy_assign-IsCounted i j h l k c = elim (Bool-cases (same_pointer (pointer h i) (pointer h j))) [
    | inl e ↦ rw (copy_assign-same i j h e) (c, same_pointer-eq (pointer h i) (pointer h j) e)
    | inr e ↦
        let r = release_pointer i h in
        let size = length-release i h in
        let d = release_pointer-IsCounted i h l c in
        let live : (x : ℕ) → pointer r j ≡ some x → 0 < r.ref_count x = λ x q.
          omega (arith, d.counts x, holders-positive x j r.pointers (omega (arith, size, k)) q) in
        rw (copy_assign-other i j h e) (
          set_pointer-IsCounted i (pointer r j) r (omega (arith, size, l)) (release-pointer i h l)
              live d,
          pointer-set i (pointer r j) r (omega (arith, size, l))
              ∙ pointer-release i j h l
              ∙ rw (apart i j h e) refl,
        )
  ]

  -- Where the counts are right, moving the pointer `j` to `i` keeps them right: `j` is null then and
  -- `i` points where `j` did, but a pointer that is moved to itself is null.
  pub move_assign-IsCounted :
      (i j : ℕ) (h : Heap)
      → i < length h.pointers
      → j < length h.pointers
      → IsCounted held h
      → IsCounted held (move_assign i j h)
        × ((pointer (move_assign i j h) j ≡ none)
            × (pointer (move_assign i j h) i ≡ (if i == j then none else pointer h j)))
  unfolding move_assign
  move_assign-IsCounted i j h l k c =
      let r = release_pointer i h in
      let d = release_pointer-IsCounted i h l c in
      let size = length-release i h in
      let t = point i (pointer r j) r in
      let it = length-set r.pointers i (pointer r j) in
      let at_j : pointer t j ≡ pointer r j =
        get_or-set r.pointers i j (pointer r j) none (omega (arith, size, l)) ∙ ground arith in
      (
        record {
          counts = λ x.
              let s = holders-set x i r.pointers (pointer r j) (omega (arith, size, l)) in
              let s' = holders-set x j t.pointers none (omega (arith, size, it, k)) in
              omega (
                arith,
                s,
                s',
                d.counts x,
                ap (points_to x) at_j,
                ap (points_to x) (release-pointer i h l),
              );
          gone = d.gone;
        },
        (
          get_or-set_self t.pointers j none none (omega (arith, size, it, k)),
          get_or-set t.pointers j i none none (omega (arith, size, it, k))
              ∙ elim (Bool-cases (i == j)) [
                | inl q ↦ let back : (j == i) ≡ true = ground arith in rw (q, back) refl
                | inr q ↦
                    let back : (j == i) ≡ false = ground arith in
                    let kept : pointer r j ≡ pointer h j = pointer-release i j h l ∙ rw q refl in
                    rw (q, back)
                      (get_or-set_self r.pointers i (pointer r j) none (omega (arith, size, l))
                        ∙ kept)
              ],
        ),
      )
