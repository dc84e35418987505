-- ===== src/DeadLockProfiler/Explore.antt =====
-- The loop of `Dfs` over the locks taken under one: it keeps the state of the search, or the lines
-- that it prints are a cycle.
use mathlib.Core.Path.{subst}
use jam_client_prototype.Prelude.Maps.{member}
use jam_client_prototype.DeadLockProfiler.{
  History, Search, Verdict, clear, deadlock, ◌>>=◌, print, print_parents, order, is_finished,
  earlier, explore,
}
use jam_client_prototype.DeadLockProfiler.Graph.{Edge, Trail, extend}
use jam_client_prototype.DeadLockProfiler.Dfs.{
  Later-refl, undiscovered, rank, place, Inv, Later, Later-trans, Chain-rank, print_parents-Trail,
}
use jam_client_prototype.DeadLockProfiler.Steps.{link, Attached, Later-link, Inv-link}
use jam_client_prototype.Prelude.{
  ℕ, suc, ◌≤◌, ◌<◌, ◌≡◌, refl, sym, ◌⊎◌, inl, inr, true, false, Option, none, some, List, [], ◌∷◌,
  arith, ◌==◌, ==_iff, ==-refl, Bool-cases, Option-cases, length, get_or-set_self,
}

-- A search ends with arrays that have the property, or with the lines of a cycle.
abbrev pub Fate : History → Verdict → (Search → Type 0) → Type 0
Fate g r P =
    ((t : Search) × ((r ≡ clear t) × P t))
    ⊎ ((c : ℕ) × ((lines : List (ℕ × ℕ)) × ((r ≡ deadlock lines) × Trail g c c lines)))

-- The part of the search below a lock keeps the state, and finishes that lock.
abbrev pub Visited : ℕ → History → Search → List ℕ → (ℕ → Type 0) → Search → Type 0
Visited n g s stack at t = Inv n g t stack × (Later s t × ((v : ℕ) → at v → is_finished t v ≡ true))

pub Fate-bind :
    (g : History) (r : Verdict) (f : Search → Verdict) (P Q : Search → Type 0)
    → Fate g r P
    → ((t : Search) → P t → Fate g (f t) Q)
    → Fate g (r >>= f) Q
unfolding ◌>>=◌
Fate-bind g r f P Q h k = elim h [
  | inl a ↦ let e = a.1.0 in subst (λ x. Fate g (x >>= f) Q) (sym e) (k a.0 a.1.1)
  | inr b ↦ inr (b.0, (b.1.0, (rw b.1.1.0 refl, b.1.1.1)))
]

pub Fate-map :
    (g : History) (r : Verdict) (P Q : Search → Type 0)
    → Fate g r P
    → ((t : Search) → P t → Q t)
    → Fate g r Q
Fate-map g r P Q h k = elim h [ inl a ↦ inl (a.0, (a.1.0, k a.0 a.1.1)) | inr b ↦ inr b ]

-- The branches of the loop of `Dfs`.
module _ (visit : ℕ → Search → Verdict) (here there : ℕ) (ids : List ℕ) (s : Search) where
  explore-white :
      order s there ≡ none
      → explore visit here (there ∷ ids) s
        ≡ (visit there (link there here s) >>= explore visit here ids)
  unfolding explore ◌>>=◌
  explore-white e = rw (explore, e) refl

  explore-done :
      (o : ℕ)
      → order s there ≡ some o
      → is_finished s there ≡ true
      → explore visit here (there ∷ ids) s ≡ explore visit here ids s
  unfolding explore
  explore-done o e f = elim (Bool-cases (earlier (order s here) (some o))) [
    | inl b ↦ rw (explore, e, b) refl
    | inr b ↦ rw (explore, e, b, f) refl
  ]

  explore-report :
      (o : ℕ)
      → order s there ≡ some o
      → earlier (order s here) (some o) ≡ false
      → is_finished s there ≡ false
      → explore visit here (there ∷ ids) s
        ≡ print (here, there) (print_parents (length s.parent) s.parent here there)
  unfolding explore print
  explore-report o e b f = rw (explore, e, b, f) refl

-- An entry that is not less is the entry of a lock discovered no later.
earlier-place : (a : Option ℕ) (o : ℕ) → suc o ≤ place a → earlier a (some o) ≡ false
unfolding earlier
earlier-place none o h = absurd (omega arith)
earlier-place (some b) o h = ground arith

module _ (n : ℕ) (g : History) (bounded : (a b : ℕ) → Edge g a b → (a < n) × (b < n))
    (loopless : (a : ℕ) → Edge g a a → ⊥) where
  -- A lock that was discovered earlier and is not finished lies on the way to `here`.
  report_lem :
      (s : Search) (here there : ℕ) (stack : List ℕ)
      → Inv n g s (here ∷ stack)
      → Edge g here there
      → 0 < rank s there
      → is_finished s there ≡ false
      → (c : ℕ) × ((lines : List (ℕ × ℕ)) × ((print
                (here, there)
                (print_parents (length s.parent) s.parent here there)
              ≡ deadlock lines)
            × Trail g c c lines))
  unfolding member print
  report_lem s here there stack i e p f =
      let other : (here == there) ≡ false = elim (Bool-cases (here == there)) [
        | inl q ↦ absurd (loopless here (subst (Edge g here) (sym ((==_iff here there).0 q)) e))
        | inr q ↦ q
      ] in
      let waits : member there stack ≡ true = ground (arith, i.begun there p f) in
      let (lines, (ends, trail)) =
        print_parents-Trail g s (length s.parent) here there stack i.chain waits
          (omega (arith, i.parent_size, i.room)) in
      (there, (_, (rw ends refl, extend trail e)))

  -- One more lock of the loop is finished.
  also :
      (s : Search) (stack : List ℕ) (there : ℕ) (ids : List ℕ) (u : Search)
      → is_finished u there ≡ true
      → Visited n g s stack (λ v. member v ids ≡ true) u
      → Visited n g s stack (λ v. member v (there ∷ ids) ≡ true) u
  unfolding member
  also s stack there ids u f (i, (l, q)) = (
    i,
    (
      l,
      λ v m. elim (Bool-cases (there == v)) [
        | inl e ↦ subst (λ x. is_finished u x ≡ true) ((==_iff there v).0 e) f
        | inr e ↦ q v (ground arith)
      ],
    ),
  )

  pub explore_lem :
      (fuel : ℕ) (visit : ℕ → Search → Verdict)
      → ((s : Search) (there : ℕ) (stack : List ℕ)
          → Inv n g s stack
          → there < n
          → order s there ≡ none
          → Attached n g s there stack
          → undiscovered s.discovered_order < fuel
          → Fate g (visit there s) (Visited n g s stack (λ v. there ≡ v)))
      → (here : ℕ) (stack ids : List ℕ) (s : Search) → Inv n g s (here ∷ stack)
      → ((w : ℕ) → member w ids ≡ true → Edge g here w)
      → undiscovered s.discovered_order < fuel
      → Fate g (explore visit here ids s) (Visited n g s (here ∷ stack) (λ v. member v ids ≡ true))
  unfolding explore member
  explore_lem fuel visit ih here stack [] s i edges u =
      inl (s, (refl, (i, (Later-refl s, λ v h. absurd (cc)))))
  explore_lem fuel visit ih here stack (there ∷ ids) s i edges u =
      let edge : Edge g here there = edges there (ground (arith, ==-refl there)) in
      let later = λ (w : ℕ) (m : member w ids ≡ true). edges w (ground arith) in
      let skip = λ (f : is_finished s there ≡ true).
        Fate-map g (explore visit here ids s) _
          (Visited n g s (here ∷ stack) (λ v. member v (there ∷ ids) ≡ true))
          (explore_lem fuel visit ih here stack ids s i later u)
          (λ y v. also s (here ∷ stack) there ids y (v.1.0.finishes there f) v) in
      elim (Option-cases (order s there)) [
        | inl white ↦
            let t = link there here s in
            let first =
              ih t there (here ∷ stack) (Inv-link n g s there here (here ∷ stack) i white)
                (bounded here there edge).1 white
                (
                  get_or-set_self s.parent there (some here) none
                      (omega (arith, i.parent_size, (bounded here there edge).1)),
                  edge,
                )
                u in
            rw (explore-white visit here there ids s white) (
              Fate-bind g (visit there t) (explore visit here ids) _
                (Visited n g s (here ∷ stack) (λ v. member v (there ∷ ids) ≡ true)) first
                (λ x (j, (l, q)).
                  let before = Later-trans (Later-link n g s there here white) l in
                  Fate-map g (explore visit here ids x) _ _
                    (explore_lem fuel visit ih here stack ids x j later (omega (arith, l.fewer, u)))
                    (λ y (j', (l', q')).
                      also s (here ∷ stack) there ids y (l'.finishes there (q there refl))
                        (j', (Later-trans before l', q')))))
        | inr seen ↦ elim (Bool-cases (is_finished s there)) [
          | inl f ↦ rw (explore-done visit here there ids s seen.0 seen.1 f) (skip f)
          | inr f ↦
              let p : 0 < rank s there = rw (rank, seen.1) (omega arith) in
              let m = i.begun there p f in
              let r = Chain-rank g s here there stack i.chain m in
              let b =
                earlier-place (order s here) seen.0 (subst (λ x. place x ≤ rank s here) seen.1 r) in
              rw (explore-report visit here there ids s seen.0 seen.1 b f)
                (inr (report_lem s here there stack i edge p f))
        ]
      ]
