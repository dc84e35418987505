-- ===== src/JobQueue/Tests.antt =====
-- JobQueue: two threads that push while one of them executes.
use jam_client_prototype.Prelude.{ℕ, ◌<◌, ◌≡◌, refl, ◌⊎◌, true, false, List, [], ◌∷◌, ◌++◌, arith}
use jam_client_prototype.JobQueue.{Choice, pushes, works, next, fresh}
use jam_client_prototype.JobQueue.Threads.{step, run, initial, Below, token, total}
use jam_client_prototype.JobQueue.Order.{run_order, run_complete}
use jam_client_prototype.JobQueue.Exclusive.{executes, run_exclusive, run_served}

-- Thread 0 pushes job 7 and begins to execute; thread 1 pushes job 8 meanwhile.
abbrev both : List (ℕ × Choice)
both =
    (0, pushes 7 true) ∷ (0, works) ∷ (0, works) ∷ (0, works) ∷ (1, pushes 8 true) ∷ (1, works) ∷ []

-- Thread 0 goes on until nothing is left.
abbrev done : List (ℕ × Choice)
done = (0, pushes 7 true) ∷ (0, works) ∷ (0, works) ∷ (0, works) ∷ (0, works) ∷ (0, works) ∷ []

both-Below : Below 2 both
both-Below =
    (omega arith, (omega arith, (omega arith, (omega arith, (omega arith, (omega arith, tt))))))

done-Below : Below 2 done
done-Below =
    (omega arith, (omega arith, (omega arith, (omega arith, (omega arith, (omega arith, tt))))))

run_exclusive_example :
    (executes ((run both initial).pc 1) ≡ false) × ((run both initial).shared.in_global ≡ 0)
unfolding run step initial fresh next
run_exclusive_example =
    run_exclusive 2 0 1 both both-Below (omega arith) (omega arith) (λ e. absurd (omega arith)) refl

run_order_example :
    (run both initial).shared.arrived
    ≡ (run both initial).shared.executed
      ++ ((run both initial).shared.in_hand ++ (run both initial).shared.jobs)
run_order_example = run_order 2 both both-Below

run_served_example :
    (((run both initial).shared.in_global ≡ 1) × (total token 2 (run both initial).pc ≡ 0))
    ⊎ (((run both initial).shared.in_global ≡ 0)
        × ((i : ℕ) × (i < 2) × (0 < token ((run both initial).pc i))))
unfolding run step initial fresh next
run_served_example = run_served 2 both both-Below (λ e. absurd (omega arith))

run_complete_example : (run done initial).shared.executed ≡ (run done initial).shared.arrived
unfolding run step initial fresh next
run_complete_example = run_complete 2 done done-Below refl
