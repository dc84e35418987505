-- ===== src/ThreadManager.antt =====
-- ClientNetworkCore/ThreadManager.cpp with LockQueue.h and GlobalQueue.cpp: the ids of the threads,
-- the queue of job queues, and the work that a thread does on it. Job queues are of any type; what
-- `Execute` of one does to the rest of the program, and the job queues that it puts into the global
-- queue, are an argument.
pub mod Ids
pub mod Rounds
mod Tests
use jam_client_prototype.Prelude.{
  ℕ, zero, suc, ◌+◌, ◌%◌, ◌^◌, Bool, true, false, Option, none, some, List, [], ◌∷◌, ◌++◌, ltb,
}
use jam_client_prototype.JobTimer.{JobTimer, begin_distribute, end_distribute, pushes}

-- `LockQueue<T>` of pointers: `none` is null, and what `Pop` of an empty queue returns.
module _ {ℓ} {A : Type ℓ} where
  unfoldable pub push : Option A → List (Option A) → List (Option A)
  push job items = items ++ (job ∷ [])

  unfoldable pub pop : List (Option A) → Option A × List (Option A)
  pop [] = (none, [])
  pop (x ∷ items) = (x, items)

  -- What `PopAll` appends, and what it leaves: a null item ends its loop, and is gone.
  unfoldable pub pop_all : List (Option A) → List A × List (Option A)
  pop_all [] = ([], [])
  pop_all (none ∷ items) = ([], items)
  pop_all (some x ∷ items) = let rest = pop_all items in (x ∷ rest.0, rest.1)

  unfoldable pub clear : List (Option A) → List (Option A)
  clear items = []

-- The static counter of `InitTLS`, and the id that it gives to the calling thread.
abbrev pub first_thread_id : ℕ
first_thread_id = 1

unfoldable pub init_tls : ℕ → ℕ × ℕ
init_tls thread_id = (thread_id, (thread_id + 1) % 2 ^ 32)

-- `_threads` are the ids of the threads that run. Each calls `InitTLS` first; they are taken to do so in
-- the order in which they were launched.
pub record ThreadManager : Type 0 where
  pub thread_id : ℕ
  pub main_thread : ℕ
  pub threads : List ℕ

unfoldable pub create_thread_manager : ThreadManager
unfolding init_tls
create_thread_manager = record {
  thread_id = (init_tls first_thread_id).1;
  main_thread = (init_tls first_thread_id).0;
  threads = [];
}

unfoldable pub launch : ThreadManager → ThreadManager
unfolding init_tls
launch m =
    let (id, next) = init_tls m.thread_id in
    record m { thread_id = next; threads = m.threads ++ (id ∷ []) }

unfoldable pub join : ThreadManager → ThreadManager
join m = record m { threads = [] }

pub record Work (Q World : Type 0) : Type 0 where
  pub queue : List (Option Q)
  pub world : World
  -- the job queues that were executed, and those that were put into the global queue meanwhile
  pub executed : List Q
  pub pushed : List (Option Q)

module _ {Q World : Type 0} (execute : Q → World → World × List (Option Q)) where
  unfoldable pub execute_next : Q → List (Option Q) → Work Q World → Work Q World
  execute_next q rest w =
      let (world, more) = execute q w.world in
      record {
        queue = rest ++ more;
        world = world;
        executed = w.executed ++ (q ∷ []);
        pushed = w.pushed ++ more;
      }

  -- `DoGlobalQueueWork`: `clock k` is what `GetTickCount64` returns in round `k`, `end_tick` is
  -- `LEndTickCount`. `none` when `fuel` rounds were not enough.
  unfoldable pub do_global_queue_work : (ℕ → ℕ) → ℕ → ℕ → ℕ → Work Q World → Option (Work Q World)
  do_global_queue_work clock end_tick zero k w = none
  do_global_queue_work clock end_tick (suc fuel) k w = elim (ltb end_tick (clock k)) [
    | true ↦ some w
    | false ↦
        let (first, rest) = pop w.queue in
        elim first [
          | none ↦ some (record w { queue = rest })
          | some q ↦ do_global_queue_work clock end_tick fuel (k + 1) (execute_next q rest w)
        ]
  ]

-- `DistributeReservedJob`, with `Distribute` whole: the pushes to the job queues of the owners that
-- are alive. Another thread that distributes keeps it from doing anything.
unfoldable pub distribute_reserved_job : ℕ → (ℕ → Bool) → JobTimer → List (ℕ × ℕ) × JobTimer
distribute_reserved_job now alive t =
    let (due, t') = begin_distribute now t in
    elim due [ none ↦ ([], t') | some items ↦ (pushes alive items, end_distribute t') ]
