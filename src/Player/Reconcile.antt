-- ===== src/Player/Reconcile.antt =====
-- Which inputs `Reconcile` plays again and keeps, over any sequence of updates and server states.
use jam_client_prototype.Player.{Input, Player, replay, unacknowledged, reconcile}
use jam_client_prototype.Prelude.{
  ℕ, suc, ◌+◌, ◌≤◌, ◌<◌, ◌≡◌, refl, sym, ap, ◌∙◌, inl, inr, true, false, List, [], ◌∷◌, ◌++◌, arith,
  ltb, leb, ltb→lt, ltb→le, Bool-cases,
}

-- The inputs are numbered from `k` up to but not including `n`, without a gap.
abbrev pub IsRun : {Keys : Type 0} → ℕ → ℕ → List (Input Keys) → Type 0
IsRun k n [] = k ≡ n
IsRun k n (i ∷ is) = (i.sequence ≡ k) × IsRun (suc k) n is

module _ {Keys : Type 0} where
  pub IsRun-le : (k n : ℕ) (is : List (Input Keys)) → IsRun k n is → k ≤ n
  IsRun-le k n [] h = omega (arith, h)
  IsRun-le k n (i ∷ is) h = omega (arith, IsRun-le (suc k) n is h.1)

  pub IsRun-append :
      (k n : ℕ) (is : List (Input Keys)) (i : Input Keys)
      → IsRun k n is
      → i.sequence ≡ n
      → IsRun k (suc n) (is ++ (i ∷ []))
  IsRun-append k n [] i h e = (e ∙ sym h, ap suc h)
  IsRun-append k n (j ∷ is) i h e = (h.0, IsRun-append (suc k) n is i h.1 e)

  -- Above the acknowledged number all inputs of a run stay.
  unacknowledged-all :
      (ack k n : ℕ) (is : List (Input Keys)) → IsRun k n is → ack < k → unacknowledged ack is ≡ is
  unfolding unacknowledged
  unacknowledged-all ack k n [] h l = refl
  unacknowledged-all ack k n (i ∷ is) h l =
      let later : leb i.sequence ack ≡ false = ground (arith, h.0) in
      rw (later, unacknowledged-all ack (suc k) n is h.1 (omega arith)) refl

  -- What stays of a run is the run from the number after the acknowledged one.
  unacknowledged-IsRun :
      (ack k n : ℕ) (is : List (Input Keys))
      → IsRun k n is
      → k ≤ ack + 1
      → ack < n
      → IsRun (ack + 1) n (unacknowledged ack is)
  unfolding unacknowledged
  unacknowledged-IsRun ack k n [] h l u = omega (arith, h)
  unacknowledged-IsRun ack k n (i ∷ is) h l u = elim (Bool-cases (leb i.sequence ack)) [
    | inl e ↦ rw e (unacknowledged-IsRun ack (suc k) n is h.1 (ground (arith, h.0)) u)
    | inr e ↦
        let same : ack + 1 ≡ k = ground (arith, h.0) in
        rw (e, same, unacknowledged-all ack (suc k) n is h.1 (omega arith)) (h.0, h.1)
  ]

  unacknowledged-nil :
      (ack k n : ℕ) (is : List (Input Keys)) → IsRun k n is → n ≤ ack → unacknowledged ack is ≡ []
  unfolding unacknowledged
  unacknowledged-nil ack k n [] h u = refl
  unacknowledged-nil ack k n (i ∷ is) h u =
      let old : leb i.sequence ack ≡ true = ground (arith, h.0, IsRun-le (suc k) n is h.1) in
      rw (old, unacknowledged-nil ack (suc k) n is h.1 u) refl

  -- Whatever number is acknowledged, what stays is numbered without a gap.
  pub unacknowledged-Run :
      (ack k n : ℕ) (is : List (Input Keys))
      → IsRun k n is
      → (m : ℕ) × IsRun m n (unacknowledged ack is)
  unacknowledged-Run ack k n is h = elim (Bool-cases (ltb ack k)) [
    | inl e ↦ (k, rw (unacknowledged-all ack k n is h (ltb→lt ack k e)) h)
    | inr e ↦ elim (Bool-cases (ltb ack n)) [
      | inl e' ↦ (
        ack + 1,
        unacknowledged-IsRun ack k n is h (omega (arith, ltb→le ack k e)) (ltb→lt ack n e'),
      )
      | inr e' ↦ (n, rw (unacknowledged-nil ack k n is h (ltb→le ack n e')) refl)
    ]
  ]

module _ {Keys Pose View : Type 0} (apply : Pose → Input Keys → View → View) where
  -- `ApplyInput` of each input, the first one first.
  abbrev pub apply_all : Pose → List (Input Keys) → View → View
  apply_all pose [] view = view
  apply_all pose (i ∷ is) view = apply_all pose is (apply pose i view)

  replay-unacknowledged :
      (ack : ℕ) (pose : Pose) (is : List (Input Keys)) (view : View)
      → replay apply ack pose is view ≡ apply_all pose (unacknowledged ack is) view
  unfolding replay unacknowledged
  replay-unacknowledged ack pose [] view = refl
  replay-unacknowledged ack pose (i ∷ is) view = elim (Bool-cases (leb i.sequence ack)) [
    | inl e ↦
        let f : ltb ack i.sequence ≡ false = ground arith in
        rw (e, f) (replay-unacknowledged ack pose is view)
    | inr e ↦
        let f : ltb ack i.sequence ≡ true = ground arith in
        rw (e, f) (replay-unacknowledged ack pose is (apply pose i view))
  ]

  -- Where the pending inputs are numbered without a gap and the server acknowledges one of them or
  -- the one before them: the inputs behind it stay, and the drawn state is the corrected one with
  -- exactly these inputs applied, each once and in order.
  pub reconcile_lem :
      (correct : Pose → View → View) (pose : Pose) (ack k : ℕ) (p : Player Keys Pose View)
      → IsRun k p.last_sequence_number p.pending_inputs
      → k ≤ ack + 1
      → ack < p.last_sequence_number
      → let q = reconcile apply correct pose ack p in
        IsRun (ack + 1) q.last_sequence_number q.pending_inputs
        × (q.view ≡ apply_all pose q.pending_inputs (correct pose p.view))
  unfolding reconcile
  reconcile_lem correct pose ack k p h l u = (
    unacknowledged-IsRun ack k p.last_sequence_number p.pending_inputs h l u,
    replay-unacknowledged ack pose p.pending_inputs (correct pose p.view),
  )
