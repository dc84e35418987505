-- ===== src/DeadLockProfiler/Order.antt =====
-- How `PushLock` extends the lock order.
use mathlib.Core.Path.{subst}
use jam_client_prototype.Prelude.Maps.{member, assign, find-assign}
use jam_client_prototype.DeadLockProfiler.{History, next_locks, insert_sorted}
use jam_client_prototype.DeadLockProfiler.Graph.{Edge, Trail, single, extend}
use jam_client_prototype.Prelude.{
  ℕ, ◌≡◌, refl, sym, ap, ◌∙◌, ◌⊎◌, inl, inr, true, ◌||◌, List, [], ◌∷◌, arith, ◌==◌, if◌then◌else◌,
  ==_iff, Bool-cases,
}

member-insert_sorted :
    (x y : ℕ) (ys : List ℕ) → member y (insert_sorted x ys) ≡ (x == y || member y ys)
unfolding member insert_sorted
member-insert_sorted x y [] = refl
member-insert_sorted x y (z ∷ ys) = ground (arith, member-insert_sorted x y ys)

next_locks-assign :
    (a x : ℕ) (ids : List ℕ) (g : History)
    → next_locks x (assign a ids g) ≡ (if a == x then ids else next_locks x g)
unfolding next_locks
next_locks-assign a x ids g = elim (Bool-cases (a == x)) [
  | inl e ↦ rw (next_locks, find-assign a x ids g, e) refl
  | inr e ↦ rw (next_locks, find-assign a x ids g, e) refl
]

-- The lock order with `b` taken while `a` is the last lock held.
abbrev pub extended : ℕ → ℕ → History → History
extended a b g = assign a (insert_sorted b (next_locks a g)) g

pub Edge-extended :
    (a b x y : ℕ) (g : History) → Edge (extended a b g) x y → Edge g x y ⊎ ((x ≡ a) × (y ≡ b))
unfolding Edge
Edge-extended a b x y g e =
    let ids = insert_sorted b (next_locks a g) in
    let e' : member y (if a == x then ids else next_locks x g) ≡ true =
      sym (ap (member y) (next_locks-assign a x ids g)) ∙ e in
    elim (Bool-cases (a == x)) [
      | inr other ↦ inl (sym (ap (λ c. member y (if c then ids else next_locks x g)) other) ∙ e')
      | inl q ↦
          let same : a ≡ x = (==_iff a x).0 q in
          let m : (b == y || member y (next_locks a g)) ≡ true =
            sym (member-insert_sorted b y (next_locks a g))
            ∙ sym (ap (λ c. member y (if c then ids else next_locks x g)) q)
            ∙ e' in
          elim (Bool-cases (b == y)) [
            | inl r ↦ inr (sym same, sym ((==_iff b y).0 r))
            | inr r ↦ inl (
                subst (λ z. Edge g z y) same (sym (ap (λ c. c || member y (next_locks a g)) r) ∙ m))
          ]
    ]

-- The other way: what `PushLock` learns is in the order, and nothing that was there goes.
pub extended-Edge :
    (a b x y : ℕ) (g : History) → Edge g x y ⊎ ((x ≡ a) × (y ≡ b)) → Edge (extended a b g) x y
unfolding Edge
extended-Edge a b x y g h =
    let ids = insert_sorted b (next_locks a g) in
    let there : member y (if a == x then ids else next_locks x g) ≡ true = elim h [
      | inr new ↦
          let q : (a == x) ≡ true = (==_iff a x).1 (sym new.0) in
          let r : (b == y) ≡ true = (==_iff b y).1 (sym new.1) in
          rw (q, member-insert_sorted b y (next_locks a g), r) refl
      | inl old ↦ elim (Bool-cases (a == x)) [
        | inr other ↦ rw other old
        | inl q ↦
            let here : member y (next_locks a g) ≡ true =
              subst (λ z. member y (next_locks z g) ≡ true) (sym ((==_iff a x).0 q)) old in
            rw (q, member-insert_sorted b y (next_locks a g), here) ground arith
      ]
    ] in
    ap (member y) (next_locks-assign a x ids g) ∙ there

pub touched-Edge : (a x y : ℕ) (g : History) → Edge g x y → Edge (assign a (next_locks a g) g) x y
unfolding Edge
touched-Edge a x y g e =
    let there : member y (if a == x then next_locks a g else next_locks x g) ≡ true =
      elim (Bool-cases (a == x)) [
        | inr other ↦ rw other e
        | inl q ↦ rw q (subst (λ z. member y (next_locks z g) ≡ true) (sym ((==_iff a x).0 q)) e)
      ] in
    ap (member y) (next_locks-assign a x (next_locks a g) g) ∙ there

pub Edge-touched : (a x y : ℕ) (g : History) → Edge (assign a (next_locks a g) g) x y → Edge g x y
unfolding Edge
Edge-touched a x y g e =
    let e' : member y (if a == x then next_locks a g else next_locks x g) ≡ true =
      sym (ap (member y) (next_locks-assign a x (next_locks a g) g)) ∙ e in
    elim (Bool-cases (a == x)) [
      | inr other ↦
          sym (ap (λ c. member y (if c then next_locks a g else next_locks x g)) other) ∙ e'
      | inl q ↦
          subst (λ z. Edge g z y) ((==_iff a x).0 q)
            (sym (ap (λ c. member y (if c then next_locks a g else next_locks x g)) q) ∙ e')
    ]

pub Trail-map :
    (g h : History)
    → ((x y : ℕ) → Edge g x y → Edge h x y)
    → {a b : ℕ} {lines : List (ℕ × ℕ)} → Trail g a b lines
    → Trail h a b lines
Trail-map g h f (single e) = single (f _ _ e)
Trail-map g h f (extend t e) = extend (Trail-map g h f t) (f _ _ e)
