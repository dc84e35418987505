-- ===== src/DeadLockProfiler/Dfs.antt =====
-- The state of `Dfs`: its arrays have one slot per lock, the locks it has begun and not finished are
-- a way along edges that `_parent` records, and the finished ones are on no cycle.
use mathlib.Core.Path.{subst}
use jam_client_prototype.Prelude.Maps.{member}
use jam_client_prototype.DeadLockProfiler.{
  History, Search, deadlock, print, print_parents, order, is_finished,
}
use jam_client_prototype.DeadLockProfiler.Graph.{Edge, Trail, single, extend, Settled}
use jam_client_prototype.Prelude.{
  ℕ, zero, suc, ◌+◌, ◌≤◌, ◌<◌, ◌≡◌, refl, ap, ◌∙◌, inl, inr, true, false, Option, none, some, List,
  [], ◌∷◌, arith, ◌==◌, ==_iff, Bool-cases, length, get_or, set, replicate,
}

-- The locks that are not discovered yet.
abbrev pub undiscovered : List (Option ℕ) → ℕ
undiscovered [] = 0
undiscovered (none ∷ os) = suc (undiscovered os)
undiscovered (some o ∷ os) = undiscovered os

pub undiscovered-set :
    (os : List (Option ℕ)) (i o : ℕ)
    → i < length os
    → get_or os i none ≡ none
    → suc (undiscovered (set os i (some o))) ≡ undiscovered os
undiscovered-set [] i o h e = absurd (omega arith)
undiscovered-set (x ∷ os) zero o h e = rw e
undiscovered-set (none ∷ os) (suc i) o h e = ap suc (undiscovered-set os i o (omega arith) e)
undiscovered-set (some x ∷ os) (suc i) o h e = undiscovered-set os i o (omega arith) e

pub undiscovered-replicate : (n : ℕ) → undiscovered (replicate n none) ≡ n
undiscovered-replicate zero = refl
undiscovered-replicate (suc n) = ap suc (undiscovered-replicate n)

-- The entry of `_discoveredOrder` plus one: 0 where the lock is not discovered.
abbrev pub place : Option ℕ → ℕ
place none = 0
place (some o) = suc o

abbrev pub rank : Search → ℕ → ℕ
rank s v = place (order s v)

-- The begun locks, the last one first.
abbrev pub Chain : History → Search → List ℕ → Type 0
Chain g s [] = Unit {0}
Chain g s (x ∷ []) = 0 < rank s x
Chain g s (x ∷ (y ∷ ys)) =
    (get_or s.parent x none ≡ some y) × (Edge g y x × ((rank s y < rank s x) × Chain g s (y ∷ ys)))

pub record Inv (n : ℕ) (g : History) (s : Search) (stack : List ℕ) : Type 0 where
  pub order_size : length s.discovered_order ≡ n
  pub finished_size : length s.finished ≡ n
  pub parent_size : length s.parent ≡ n
  pub room : length stack + undiscovered s.discovered_order ≤ n
  pub below : (v : ℕ) → rank s v ≤ s.discovered_count
  pub begun : (v : ℕ) → 0 < rank s v → is_finished s v ≡ false → member v stack ≡ true
  pub chain : Chain g s stack
  pub settles : (v : ℕ) → is_finished s v ≡ true → Settled g v

-- What a part of the search leaves as it was.
pub record Later (s t : Search) : Type 0 where
  pub ranks : (v : ℕ) → 0 < rank s v → rank t v ≡ rank s v
  pub parents : (v : ℕ) → 0 < rank s v → get_or t.parent v none ≡ get_or s.parent v none
  pub finishes : (v : ℕ) → is_finished s v ≡ true → is_finished t v ≡ true
  pub fewer : undiscovered t.discovered_order ≤ undiscovered s.discovered_order

pub Later-refl : (s : Search) → Later s s
Later-refl s = record {
  ranks = λ v h. refl;
  parents = λ v h. refl;
  finishes = λ v h. h;
  fewer = omega arith;
}

pub Later-trans : {s t u : Search} → Later s t → Later t u → Later s u
Later-trans p q = record {
  ranks = λ v h. omega (arith, p.ranks v h, q.ranks v (omega (arith, p.ranks v h)));
  parents = λ v h. q.parents v (omega (arith, p.ranks v h)) ∙ p.parents v h;
  finishes = λ v h. q.finishes v (p.finishes v h);
  fewer = omega (arith, p.fewer, q.fewer);
}

module _ (g : History) where
  pub Chain-positive : (s : Search) (x : ℕ) (xs : List ℕ) → Chain g s (x ∷ xs) → 0 < rank s x
  Chain-positive s x [] c = c
  Chain-positive s x (y ∷ ys) c = omega (arith, c.1.1.0)

  pub Chain-tail : (s : Search) (x : ℕ) (xs : List ℕ) → Chain g s (x ∷ xs) → Chain g s xs
  Chain-tail s x [] c = tt
  Chain-tail s x (y ∷ ys) c = c.1.1.1

  -- The stack is as it was after a part of the search.
  pub Chain-Later : (s t : Search) (xs : List ℕ) → Later s t → Chain g s xs → Chain g t xs
  Chain-Later s t [] l c = tt
  Chain-Later s t (x ∷ []) l c = omega (arith, l.ranks x c)
  Chain-Later s t (x ∷ (y ∷ ys)) l c =
      let px = Chain-positive s x (y ∷ ys) c in
      let py = Chain-positive s y ys c.1.1.1 in
      (
        l.parents x px ∙ c.0,
        (
          c.1.0,
          (omega (arith, l.ranks x px, l.ranks y py, c.1.1.0), Chain-Later s t (y ∷ ys) l c.1.1.1),
        ),
      )

  -- The last lock begun was discovered last.
  pub Chain-rank :
      (s : Search) (x v : ℕ) (xs : List ℕ)
      → Chain g s (x ∷ xs)
      → member v (x ∷ xs) ≡ true
      → rank s v ≤ rank s x
  unfolding member
  Chain-rank s x v [] c m = let e : x ≡ v = ground arith in rw e (omega arith)
  Chain-rank s x v (y ∷ ys) c m = elim (Bool-cases (x == v)) [
    | inl e ↦ let same : x ≡ v = (==_iff x v).0 e in rw same (omega arith)
    | inr e ↦ let rest = Chain-rank s y v ys c.1.1.1 (ground arith) in omega (arith, rest, c.1.1.0)
  ]

  -- The printing loop ends, and what it prints is a way from `there` to `now`.
  pub print_parents-Trail :
      (s : Search) (fuel now there : ℕ) (xs : List ℕ)
      → Chain g s (now ∷ xs)
      → member there xs ≡ true
      → length xs ≤ fuel
      → (lines : List (ℕ × ℕ)) × ((print_parents fuel s.parent now there ≡ deadlock lines)
          × Trail g there now lines)
  unfolding member print_parents print
  print_parents-Trail s fuel now there [] c m h = absurd (cc)
  print_parents-Trail s zero now there (y ∷ ys) c m h = absurd (omega arith)
  print_parents-Trail s (suc fuel) now there (y ∷ ys) c m h = elim (Bool-cases (y == there)) [
    | inl e ↦
        let same : y ≡ there = (==_iff y there).0 e in
        (
          _,
          (
            rw (print_parents, c.0, e) refl,
            subst (λ x. Trail g x now ((y, now) ∷ [])) same (single c.1.0),
          ),
        )
    | inr e ↦
        let (lines, (ends, trail)) =
          print_parents-Trail s fuel y there ys c.1.1.1 (ground arith) (omega arith) in
        (_, (rw (print_parents, c.0, e, ends) refl, extend trail c.1.0))
  ]
