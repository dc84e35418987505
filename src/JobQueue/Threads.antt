-- ===== src/JobQueue/Threads.antt =====
-- Threads that share a `JobQueue`: a schedule names the thread that acts and what it meets.
use jam_client_prototype.Prelude.{
  ℕ, zero, suc, ◌+◌, ◌≤◌, ◌<◌, ◌≡◌, refl, ◌≢◌, inl, inr, false, List, [], ◌∷◌, arith, ltb, ◌==◌,
  if◌then◌else◌, ltb→lt, ltb→le, ==_iff, Bool-cases,
}
use jam_client_prototype.JobQueue.{
  Shared, Pc, idle, counted, pushed, top, running, check, Choice, next, fresh,
}

pub record System : Type 0 where
  pub shared : Shared
  pub pc : ℕ → Pc

abbrev pub update : (ℕ → Pc) → ℕ → Pc → ℕ → Pc
update f i p j = if i == j then p else f j

unfoldable pub step : ℕ → Choice → System → System
step i c s =
    let r = next c s.shared (s.pc i) in record { shared = r.shared; pc = update s.pc i r.pc }

unfoldable pub run : List (ℕ × Choice) → System → System
run [] s = s
run ((i, c) ∷ more) s = run more (step i c s)

unfoldable pub initial : System
unfolding fresh
initial = record { shared = fresh; pc = λ _. idle }

-- A schedule of threads below `n`.
abbrev pub Below : ℕ → List (ℕ × Choice) → Type 0
Below n [] = Unit {0}
Below n ((i, c) ∷ more) = (i < n) × Below n more

-- Who is responsible for the queue: the pusher that found it empty, until it has acted on that,
-- and the thread that executes.
abbrev pub token : Pc → ℕ
token idle = 0
token (counted first direct job) = if first then 1 else 0
token (pushed first direct) = if first then 1 else 0
token top = 1
token (running rest size) = 1
token check = 1

-- Jobs that the count includes and the queue does not hold.
abbrev pub pending : Pc → ℕ
pending idle = 0
pending (counted first direct job) = 1
pending (pushed first direct) = 0
pending top = 0
pending (running rest size) = size
pending check = 0

-- A weight summed over the threads below `n`.
unfoldable pub total : (Pc → ℕ) → ℕ → (ℕ → Pc) → ℕ
total w zero f = 0
total w (suc n) f = total w n f + w (f n)

total-update_ge :
    (w : Pc → ℕ) (n : ℕ) (f : ℕ → Pc) (i : ℕ) (p : Pc)
    → n ≤ i
    → total w n (update f i p) ≡ total w n f
unfolding total
total-update_ge w zero f i p h = refl
total-update_ge w (suc n) f i p h = ground (arith, total-update_ge w n f i p)

pub total-update :
    (w : Pc → ℕ) (n : ℕ) (f : ℕ → Pc) (i : ℕ) (p : Pc)
    → i < n
    → total w n (update f i p) + w (f i) ≡ total w n f + w p
unfolding total
total-update w zero f i p h = absurd (omega arith)
total-update w (suc n) f i p h = elim (Bool-cases (i == n)) [
  | inl e ↦ let same : i ≡ n = (==_iff i n).0 e in ground (arith, total-update_ge w n f i p)
  | inr e ↦ ground (arith, total-update w n f i p)
]

pub weight-le-total : (w : Pc → ℕ) (n : ℕ) (f : ℕ → Pc) (i : ℕ) → i < n → w (f i) ≤ total w n f
unfolding total
weight-le-total w zero f i h = absurd (omega arith)
weight-le-total w (suc n) f i h = elim (Bool-cases (i == n)) [
  | inl e ↦ let same : i ≡ n = (==_iff i n).0 e in rw same (omega arith)
  | inr e ↦ ground (arith, weight-le-total w n f i)
]

-- Two threads weigh no more than all.
pub weights-le-total :
    (w : Pc → ℕ) (n : ℕ) (f : ℕ → Pc) (i j : ℕ)
    → w idle ≡ 0
    → i < n
    → j < n
    → i ≢ j
    → w (f i) + w (f j) ≤ total w n f
weights-le-total w n f i j z hi hj ne =
    let other : (i == j) ≡ false = ground arith in
    let left : w (f j) ≤ total w n (update f i idle) =
      rw other at (weight-le-total w n (update f i idle) j hj) in
    omega (arith, total-update w n f i idle hi, left)

pub total_pos :
    (w : Pc → ℕ) (n : ℕ) (f : ℕ → Pc) → 0 < total w n f → (i : ℕ) × (i < n) × (0 < w (f i))
unfolding total
total_pos w zero f h = absurd (omega arith)
total_pos w (suc n) f h = elim (Bool-cases (ltb 0 (w (f n)))) [
  | inl e ↦ (n, omega arith, ltb→lt _ _ e)
  | inr e ↦
      let (i, lt, pos) = total_pos w n f (omega (arith, ltb→le _ _ e)) in (i, omega arith, pos)
]

pub total-idle : (w : Pc → ℕ) (n : ℕ) → w idle ≡ 0 → total w n (λ _. idle) ≡ 0
unfolding total
total-idle w zero h = refl
total-idle w (suc n) h = omega (arith, total-idle w n h)
