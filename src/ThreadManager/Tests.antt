-- ===== src/ThreadManager/Tests.antt =====
-- Job queues as numbers, of which 1 puts itself into the global queue once more.
use jam_client_prototype.Prelude.{
  ℕ, zero, suc, ◌+◌, ◌*◌, ◌≡◌, refl, ◌≢◌, ◌↔◌, Option, none, some, List, [], ◌∷◌, arith, get_or,
}
use jam_client_prototype.Lock.{desired}
use jam_client_prototype.ThreadManager.{
  Work, create_thread_manager, do_global_queue_work, execute_next, pop_all, pop,
}
use jam_client_prototype.ThreadManager.Ids.{all_threads, launch_times, desired-launch}
use jam_client_prototype.ThreadManager.Rounds.{
  NoNull, IsInOrder, EndsInTime, do_global_queue_work_lem,
}

abbrev runs : ℕ → ℕ → ℕ × List (Option ℕ)
runs zero world = (world + 1, [])
runs (suc zero) world = (world + 1, some 2 ∷ [])
runs (suc (suc q)) world = (world + 1, [])

runs-NoNull : (q world : ℕ) → NoNull (runs q world).1
runs-NoNull zero world = tt
runs-NoNull (suc zero) world = tt
runs-NoNull (suc (suc q)) world = tt

abbrev two_queues : List (Option ℕ)
two_queues = some 1 ∷ (some 3 ∷ [])

abbrev start : Work ℕ ℕ
start = record { queue = two_queues; world = 0; executed = []; pushed = [] }

all_done :
    do_global_queue_work runs (λ k. k * 10) 64 8 0 start
    ≡ some (record { queue = []; world = 3; executed = 1 ∷ (3 ∷ (2 ∷ [])); pushed = some 2 ∷ [] })
unfolding do_global_queue_work execute_next pop
all_done = refl

null_ends : pop_all {A = ℕ} (some 1 ∷ (none ∷ (some 2 ∷ []))) ≡ (1 ∷ [], some 2 ∷ [])
unfolding pop_all
null_ends = refl

do_global_queue_work_lem_example :
    (r : Work ℕ ℕ) × (do_global_queue_work runs (λ k. k * 10) 64 8 0 start ≡ some r)
    × IsInOrder two_queues r
    × EndsInTime (λ k. k * 10) 64 r
do_global_queue_work_lem_example =
    do_global_queue_work_lem runs runs-NoNull (λ k. k * 10) 64 7 two_queues 0 tt (omega arith)

desired-launch_example :
    let ids = all_threads (launch_times 4 create_thread_manager) in
    (desired (get_or ids 0 0) ≢ 0)
    × ((desired (get_or ids 0 0) ≡ desired (get_or ids 3 0)) ↔ (zero ≡ 3))
desired-launch_example = desired-launch 4 0 3 (omega arith) (omega arith) (omega arith)
