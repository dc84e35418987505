-- ===== src/JobQueue/Order.antt =====
-- `JobQueue`: jobs are executed in the order in which they arrive, each once.
use jam_client_prototype.Prelude.{
  ℕ, ◌≤◌, ◌<◌, ◌≡◌, refl, sym, ap, ◌∙◌, inl, inr, true, false, List, [], ◌∷◌, ◌++◌, append_assoc,
  append-nil, arith, ◌==◌, ==_iff, ==-refl, Bool-cases, nil_of_length,
}
use jam_client_prototype.JobQueue.{
  Shared, Pc, idle, counted, pushed, top, running, check, Choice, pushes, works, ticks, next,
}
use jam_client_prototype.JobQueue.Threads.{
  System, update, step, run, initial, Below, token, pending, total, total-update, weight-le-total,
  weights-le-total,
}
use jam_client_prototype.JobQueue.Counts.{Balanced, IsBalanced, step-IsBalanced, initial-IsBalanced}

-- The jobs that a thread has taken and not executed.
abbrev pub hand : Pc → List ℕ
hand idle = []
hand (counted first direct job) = []
hand (pushed first direct) = []
hand top = []
hand (running rest size) = rest
hand check = []

-- What one action of a thread does to the history.
record Turn (m m' : Shared) (p p' : Pc) : Type 0 where
  order : m'.arrived ≡ m'.executed ++ (m'.in_hand ++ m'.jobs)
  holds : token p' ≡ 1 → m'.in_hand ≡ hand p'
  apart : token p ≡ 0 → m'.in_hand ≡ m.in_hand
  leaves : token p ≡ 1 → token p' ≡ 0 → m'.in_hand ≡ []

next-Turn :
    (c : Choice) (m : Shared) (p : Pc) (t q : ℕ)
    → Balanced m t q
    → m.arrived ≡ m.executed ++ (m.in_hand ++ m.jobs)
    → (token p ≡ 1 → m.in_hand ≡ hand p)
    → (t ≡ 0 → m.in_hand ≡ [])
    → Turn m (next c m p).shared p (next c m p).pc
unfolding next
next-Turn (pushes job direct) m idle t q b o h f = record {
  order = o;
  holds = λ e. ground (arith, b.one_token, f);
  apart = λ e. refl;
  leaves = λ e k. cc;
}
next-Turn works m idle t q b o h f = record {
  order = ground arith;
  holds = λ e. ground (arith, b.one_token, f);
  apart = λ e. ground arith;
  leaves = λ e k. ground arith;
}
next-Turn (ticks late) m idle t q b o h f = record {
  order = o;
  holds = λ e. ground arith;
  apart = λ e. refl;
  leaves = λ e k. ground arith;
}
next-Turn c m (counted first direct job) t q b o h f = record {
  order =
      ap (λ x. x ++ (job ∷ [])) o
      ∙ append_assoc m.executed (m.in_hand ++ m.jobs) (job ∷ [])
      ∙ ap (λ x. m.executed ++ x) (append_assoc m.in_hand m.jobs (job ∷ []));
  holds = h;
  apart = λ e. refl;
  leaves = λ e k. absurd (omega arith);
}
next-Turn c m (pushed true true) t q b o h f = record {
  order = o;
  holds = h;
  apart = λ e. refl;
  leaves = λ e k. h e;
}
next-Turn c m (pushed true false) t q b o h f = record {
  order = o;
  holds = λ e. absurd (omega arith);
  apart = λ e. refl;
  leaves = λ e k. h e;
}
next-Turn c m (pushed false direct) t q b o h f = record {
  order = o;
  holds = λ e. absurd (omega arith);
  apart = λ e. refl;
  leaves = λ e k. absurd (omega arith);
}
next-Turn c m top t q b o h f = record {
  order = let empty = h refl in ground (arith, append-nil m.jobs);
  holds = λ e. refl;
  apart = λ e. absurd (omega arith);
  leaves = λ e k. absurd (omega arith);
}
next-Turn c m (running (job ∷ rest) size) t q b o h f = record {
  order = let mine = h refl in ground (arith, append_assoc m.executed (job ∷ []) (rest ++ m.jobs));
  holds = λ e. refl;
  apart = λ e. absurd (omega arith);
  leaves = λ e k. absurd (omega arith);
}
next-Turn c m (running [] size) t q b o h f = record {
  order = o;
  holds = λ e. ground (arith, h refl);
  apart = λ e. refl;
  leaves = λ e k. h refl;
}
next-Turn (ticks true) m check t q b o h f = record {
  order = o;
  holds = λ e. absurd (omega arith);
  apart = λ e. refl;
  leaves = λ e k. h e;
}
next-Turn (ticks false) m check t q b o h f = record {
  order = o;
  holds = h;
  apart = λ e. refl;
  leaves = λ e k. h e;
}
next-Turn (pushes job direct) m check t q b o h f = record {
  order = o;
  holds = h;
  apart = λ e. refl;
  leaves = λ e k. h e;
}
next-Turn works m check t q b o h f = record {
  order = o;
  holds = h;
  apart = λ e. refl;
  leaves = λ e k. h e;
}

-- The history of a system of `n` threads.
pub record IsOrdered (n : ℕ) (s : System) : Type 0 where
  pub balanced : IsBalanced n s
  pub order : s.shared.arrived ≡ s.shared.executed ++ (s.shared.in_hand ++ s.shared.jobs)
  pub holds : (i : ℕ) → i < n → token (s.pc i) ≡ 1 → s.shared.in_hand ≡ hand (s.pc i)
  pub free : total token n s.pc ≡ 0 → s.shared.in_hand ≡ []

token-le : (p : Pc) → token p ≤ 1
token-le idle = omega arith
token-le (counted first direct job) = ground arith
token-le (pushed first direct) = ground arith
token-le top = omega arith
token-le (running rest size) = omega arith
token-le check = omega arith

module _ (n i : ℕ) (c : Choice) (s : System) (h : i < n) (v : IsOrdered n s) where
  turn : Turn s.shared (next c s.shared (s.pc i)).shared (s.pc i) (next c s.shared (s.pc i)).pc
  turn =
      next-Turn c s.shared (s.pc i) (total token n s.pc) (total pending n s.pc) v.balanced v.order
        (v.holds i h) v.free

  abbrev pc' : Pc
  pc' = (next c s.shared (s.pc i)).pc

  holds_after :
      (j : ℕ)
      → j < n
      → token (update s.pc i pc' j) ≡ 1
      → (next c s.shared (s.pc i)).shared.in_hand ≡ hand (update s.pc i pc' j)
  holds_after j l e = elim (Bool-cases (i == j)) [
    | inl same ↦ rw same (turn.holds (rw same at e))
    | inr other ↦
        let mine : token (s.pc j) ≡ 1 = rw other at e in
        let both = weights-le-total token n s.pc i j refl h l (ground arith) in
        let most : total token n s.pc ≤ 1 = ground (arith, v.balanced.one_token) in
        rw other (turn.apart (omega arith) ∙ v.holds j l mine)
  ]

  free_after :
      total token n (update s.pc i pc') ≡ 0 → (next c s.shared (s.pc i)).shared.in_hand ≡ []
  free_after z =
      let moved_ = total-update token n s.pc i pc' h in
      let gone : token pc' ≡ 0 =
        let last = weight-le-total token n (update s.pc i pc') i h in ground (arith, ==-refl i) in
      elim (Bool-cases (token (s.pc i) == 0)) [
        | inl e ↦ turn.apart ((==_iff _ _).0 e) ∙ v.free (omega (arith, (==_iff _ _).0 e))
        | inr e ↦ turn.leaves (ground (arith, token-le (s.pc i))) gone
      ]

  step-IsOrdered : IsOrdered n (step i c s)
  unfolding step
  step-IsOrdered = record {
    balanced = step-IsBalanced n i c s h v.balanced;
    order = turn.order;
    holds = holds_after;
    free = free_after;
  }

run-IsOrdered :
    (n : ℕ) (es : List (ℕ × Choice)) (s : System)
    → Below n es
    → IsOrdered n s
    → IsOrdered n (run es s)
unfolding run
run-IsOrdered n [] s h v = v
run-IsOrdered n ((i, c) ∷ more) s h v =
    run-IsOrdered n more (step i c s) h.1 (step-IsOrdered n i c s h.0 v)

initial-IsOrdered : (n : ℕ) → IsOrdered n initial
unfolding initial
initial-IsOrdered n = record {
  balanced = initial-IsBalanced n;
  order = refl;
  holds = λ i l e. refl;
  free = λ z. refl;
}

-- After any schedule of the threads below `n` from the initial state, the jobs that arrived are, in
-- order, those executed, those that the executing thread has in hand, and those queued: none is
-- lost, doubled or overtaken.
pub run_order :
    (n : ℕ) (es : List (ℕ × Choice))
    → Below n es
    → let m = (run es initial).shared in m.arrived ≡ m.executed ++ (m.in_hand ++ m.jobs)
run_order n es below = (run-IsOrdered n es initial below (initial-IsOrdered n)).order

-- After any schedule of the threads below `n` from the initial state, when the count is 0, the jobs
-- executed are those that arrived, in order.
pub run_complete :
    (n : ℕ) (es : List (ℕ × Choice))
    → Below n es
    → (run es initial).shared.job_count ≡ 0
    → (run es initial).shared.executed ≡ (run es initial).shared.arrived
run_complete n es below z =
    let s = run es initial in
    let v = run-IsOrdered n es initial below (initial-IsOrdered n) in
    let quiet : total token n s.pc ≡ 0 = ground (arith, v.balanced.one_token) in
    let none_queued : s.shared.jobs ≡ [] =
      nil_of_length s.shared.jobs (omega (arith, v.balanced.jobs_counted)) in
    sym (append-nil s.shared.executed)
    ∙ ap (λ x. s.shared.executed ++ x) (let e = v.free quiet in ground arith)
    ∙ sym v.order
