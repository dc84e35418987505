-- ===== src/JobQueue/Counts.antt =====
-- The counter of a `JobQueue`: it counts the jobs queued, on the way and in hand, and exactly while
-- it is not 0 somebody is responsible for the queue.
use jam_client_prototype.Prelude.{
  ℕ, ◌+◌, ◌≤◌, ◌<◌, ◌≡◌, refl, true, false, List, [], ◌∷◌, arith, ◌==◌, if◌then◌else◌, length,
  length-append,
}
use jam_client_prototype.JobQueue.{
  Shared, Pc, idle, counted, pushed, top, running, check, Choice, pushes, works, ticks, next,
}
use jam_client_prototype.JobQueue.Threads.{
  System, update, step, run, initial, Below, token, pending, total, total-update, weight-le-total,
  total-idle,
}

-- The counts, with `t` tokens and `p` pending jobs among the threads.
pub record Balanced (m : Shared) (t p : ℕ) : Type 0 where
  pub jobs_counted : m.job_count ≡ length m.jobs + p
  pub one_token : t + m.in_global ≡ (if m.job_count == 0 then 0 else 1)

next-Balanced :
    (c : Choice) (m : Shared) (pc : Pc) (t p t' p' : ℕ)
    → Balanced m t p
    → token pc ≤ t
    → pending pc ≤ p
    → t' + token pc ≡ t + token (next c m pc).pc
    → p' + pending pc ≡ p + pending (next c m pc).pc
    → Balanced (next c m pc).shared t' p'
unfolding next
next-Balanced (pushes job direct) m idle t p t' p' b ht hp et ep = ground arith
next-Balanced works m idle t p t' p' b ht hp et ep = ground arith
next-Balanced (ticks late) m idle t p t' p' b ht hp et ep = ground arith
next-Balanced c m (counted first direct job) t p t' p' b ht hp et ep =
    ground (arith, length-append m.jobs (job ∷ []))
next-Balanced c m (pushed true true) t p t' p' b ht hp et ep = ground arith
next-Balanced c m (pushed true false) t p t' p' b ht hp et ep = ground arith
next-Balanced c m (pushed false direct) t p t' p' b ht hp et ep = ground arith
next-Balanced c m top t p t' p' b ht hp et ep = ground arith
next-Balanced c m (running (job ∷ rest) size) t p t' p' b ht hp et ep = ground arith
next-Balanced c m (running [] size) t p t' p' b ht hp et ep = ground arith
next-Balanced (ticks late) m check t p t' p' b ht hp et ep = ground arith
next-Balanced (pushes job direct) m check t p t' p' b ht hp et ep = ground arith
next-Balanced works m check t p t' p' b ht hp et ep = ground arith

-- The counts of a system of `n` threads.
abbrev pub IsBalanced : ℕ → System → Type 0
IsBalanced n s = Balanced s.shared (total token n s.pc) (total pending n s.pc)

pub step-IsBalanced :
    (n i : ℕ) (c : Choice) (s : System) → i < n → IsBalanced n s → IsBalanced n (step i c s)
unfolding step
step-IsBalanced n i c s h b =
    let p' = (next c s.shared (s.pc i)).pc in
    next-Balanced c s.shared (s.pc i) (total token n s.pc) (total pending n s.pc)
      (total token n (update s.pc i p')) (total pending n (update s.pc i p')) b
      (weight-le-total token n s.pc i h) (weight-le-total pending n s.pc i h)
      (total-update token n s.pc i p' h) (total-update pending n s.pc i p' h)

-- The counts agree after any schedule.
pub run-IsBalanced :
    (n : ℕ) (es : List (ℕ × Choice)) (s : System)
    → Below n es
    → IsBalanced n s
    → IsBalanced n (run es s)
unfolding run
run-IsBalanced n [] s h b = b
run-IsBalanced n ((i, c) ∷ more) s h b =
    run-IsBalanced n more (step i c s) h.1 (step-IsBalanced n i c s h.0 b)

pub initial-IsBalanced : (n : ℕ) → IsBalanced n initial
unfolding initial
initial-IsBalanced n = ground (arith, total-idle token n refl, total-idle pending n refl)
