-- ===== src/DeadLockProfiler/Graph.antt =====
-- The lock order as a graph: its edges, its trails as `Dfs` prints them, and what it means for a
-- lock to be on no cycle.
use mathlib.Core.Path.{subst}
use jam_client_prototype.Prelude.Maps.{member}
use jam_client_prototype.DeadLockProfiler.{History, next_locks}
use jam_client_prototype.Prelude.{ℕ, ◌≡◌, refl, sym, ◌⊎◌, inl, inr, true, List, [], ◌∷◌}

-- `b` was taken while `a` was the last lock held.
unfoldable pub Edge : History → ℕ → ℕ → Type 0
unfolding member next_locks
Edge g a b = member b (next_locks a g) ≡ true

-- `Trail g a b lines`: a way from `a` to `b` along edges, the lines from its last edge to its first.
pub data Trail (g : History) : ℕ → ℕ → List (ℕ × ℕ) → Type 0 where
  single : {a b : ℕ} → Edge g a b → Trail g a b ((a, b) ∷ [])
  extend :
      {a x b : ℕ} {lines : List (ℕ × ℕ)}
      → Trail g a x lines
      → Edge g x b
      → Trail g a b ((x, b) ∷ lines)

-- No way along edges comes back to where it started.
unfoldable pub Acyclic : History → Type 0
Acyclic g = (c : ℕ) (lines : List (ℕ × ℕ)) → Trail g c c lines → ⊥

-- Each way from `v` on ends.
pub data Settled (g : History) : ℕ → Type 0 where
  settled : {v : ℕ} → ((w : ℕ) → Edge g v w → Settled g w) → Settled g v

module _ {g : History} where
  Settled-step : {v w : ℕ} → Settled g v → Edge g v w → Settled g w
  Settled-step (settled next) e = next _ e

  -- The first edge of a way, and the rest of it.
  Trail-uncons :
      {a b : ℕ} {lines : List (ℕ × ℕ)}
      → Trail g a b lines
      → (w : ℕ) × (Edge g a w × ((w ≡ b) ⊎ ((rest : List (ℕ × ℕ)) × Trail g w b rest)))
  Trail-uncons (single {a} {b} e) = (b, (e, inl refl))
  Trail-uncons (extend {a} {x} {b} t e) =
      let (w, (first, rest)) = Trail-uncons t in
      elim rest [
        | inl same ↦
            (w, (first, inr (_, subst (λ y. Trail g y b ((y, b) ∷ [])) (sym same) (single e))))
        | inr more ↦ (w, (first, inr (_, extend more.1 e)))
      ]

  pub Settled-no-Trail : {c : ℕ} {lines : List (ℕ × ℕ)} → Settled g c → Trail g c c lines → ⊥
  Settled-no-Trail {c} (settled next) t =
      let (w, (first, rest)) = Trail-uncons t in
      elim rest [
        | inl same ↦
            Settled-no-Trail (next w first) (single (subst (λ x. Edge g x w) (sym same) first))
        | inr more ↦ Settled-no-Trail (next w first) (extend more.1 first)
      ]

  -- Every way starts with an edge.
  pub Trail-start : {a b : ℕ} {lines : List (ℕ × ℕ)} → Trail g a b lines → (w : ℕ) × Edge g a w
  Trail-start t = let first = Trail-uncons t in (first.0, first.1.0)
