-- ===== src/JobQueue/Exclusive.antt =====
-- `JobQueue`: one thread at a time executes, and no queued job is left without somebody to see to it.
use jam_client_prototype.Prelude.{
  ℕ, ◌+◌, ◌≤◌, ◌<◌, ◌≡◌, refl, ◌≢◌, ◌⊎◌, inl, inr, Bool, true, false, List, arith, ◌==◌, ==_iff,
  Bool-cases, length,
}
use jam_client_prototype.JobQueue.{Pc, idle, counted, pushed, top, running, check, Choice}
use jam_client_prototype.JobQueue.Threads.{
  run, initial, Below, token, total, weights-le-total, total_pos,
}
use jam_client_prototype.JobQueue.Counts.{run-IsBalanced, initial-IsBalanced}

-- The thread is inside `Execute`.
abbrev pub executes : Pc → Bool
executes idle = false
executes (counted first direct job) = false
executes (pushed first direct) = false
executes top = true
executes (running rest size) = true
executes check = true

token-executes : (p : Pc) → executes p ≡ true → token p ≡ 1
token-executes idle h = cc
token-executes (counted first direct job) h = cc
token-executes (pushed first direct) h = cc
token-executes top h = refl
token-executes (running rest size) h = refl
token-executes check h = refl

-- After any schedule of the threads below `n` from the initial state, while one of them is inside
-- `Execute` no other is, and the queue does not stand in the global queue.
pub run_exclusive :
    (n i j : ℕ) (es : List (ℕ × Choice))
    → Below n es
    → i < n
    → j < n
    → i ≢ j
    → executes ((run es initial).pc i) ≡ true
    → (executes ((run es initial).pc j) ≡ false) × ((run es initial).shared.in_global ≡ 0)
run_exclusive n i j es below hi hj ne h =
    let s = run es initial in
    let b = run-IsBalanced n es initial below (initial-IsBalanced n) in
    let both = weights-le-total token n s.pc i j refl hi hj ne in
    let mine = token-executes (s.pc i) h in
    let most : total token n s.pc + s.shared.in_global ≤ 1 = ground (arith, b.one_token) in
    (
      elim (Bool-cases (executes (s.pc j))) [
        | inl e ↦ absurd (omega (arith, token-executes (s.pc j) e))
        | inr e ↦ e
      ],
      omega arith,
    )

-- After any schedule of the threads below `n` from the initial state, if the count is not 0, one of
-- these holds: the queue stands in the global queue, once, and no thread is responsible for it; or
-- it does not stand there, and some thread is in `Execute`, or in `Push` about to execute or to
-- hand the queue on.
pub run_served :
    (n : ℕ) (es : List (ℕ × Choice))
    → Below n es
    → (run es initial).shared.job_count ≢ 0
    → (((run es initial).shared.in_global ≡ 1) × (total token n (run es initial).pc ≡ 0))
      ⊎ (((run es initial).shared.in_global ≡ 0)
          × ((i : ℕ) × (i < n) × (0 < token ((run es initial).pc i))))
run_served n es below h =
    let s = run es initial in
    let b = run-IsBalanced n es initial below (initial-IsBalanced n) in
    let one : total token n s.pc + s.shared.in_global ≡ 1 = ground (arith, b.one_token) in
    elim (Bool-cases (s.shared.in_global == 0)) [
      | inl e ↦
          let none_ : s.shared.in_global ≡ 0 = (==_iff _ _).0 e in
          inr (none_, total_pos token n s.pc (omega arith))
      | inr e ↦ let some_ : s.shared.in_global ≢ 0 = ground arith in inl (omega arith, omega arith)
    ]

-- A queued job is counted, so the count is not 0 while one is queued.
pub job_count-jobs :
    (n : ℕ) (es : List (ℕ × Choice))
    → Below n es
    → length (run es initial).shared.jobs ≤ (run es initial).shared.job_count
job_count-jobs n es below =
    let b = run-IsBalanced n es initial below (initial-IsBalanced n) in
    omega (arith, b.jobs_counted)
