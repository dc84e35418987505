-- ===== src/JobQueue.antt =====
-- `JobQueue` of ClientNetworkCore/JobQueue.h and JobQueue.cpp with its entries in the global queue
-- (GlobalQueue.cpp, ThreadManager.cpp: DoGlobalQueueWork), under any interleaving of its threads.
-- `next` is one atomic action of a thread: an operation on the counter, on the locked queue or on
-- the global queue. Jobs are numbers. A job that pushes onto the queue that runs it is a push by
-- another thread here.
pub mod Threads
pub mod Counts
pub mod Order
pub mod Exclusive
mod Tests
use jam_client_prototype.Prelude.{
  ℕ, ◌+◌, ◌-◌, Bool, not, List, [], ◌∷◌, ◌++◌, ◌==◌, if◌then◌else◌, length,
}

pub record Shared : Type 0 where
  pub job_count : ℕ
  pub jobs : List ℕ
  pub in_global : ℕ
  -- The history: jobs in the order of their arrival in the queue, those executed, and those that a
  -- thread has taken out and not executed.
  pub arrived : List ℕ
  pub executed : List ℕ
  pub in_hand : List ℕ

-- Where a thread stands. `counted` and `pushed` are in `Push`, with whether the count was 0, and
-- whether the thread may execute (`LCurrentJobQueue == nullptr && pushOnly == false`); the others
-- are in `Execute`, `ran` with the size of the batch.
pub data Pc : Type 0 where
  idle : Pc
  counted : Bool → Bool → ℕ → Pc
  pushed : Bool → Bool → Pc
  top : Pc
  running : List ℕ → ℕ → Pc
  check : Pc

-- What the environment chooses: a new push, a turn of `DoGlobalQueueWork`, the tick count.
pub data Choice : Type 0 where
  pushes : ℕ → Bool → Choice
  works : Choice
  ticks : Bool → Choice

pub record Moved : Type 0 where
  pub shared : Shared
  pub pc : Pc

abbrev pub moved : Shared → Pc → Moved
moved m p = record { shared = m; pc = p }

unfoldable pub next : Choice → Shared → Pc → Moved
next (pushes job direct) m idle =
    moved (record m { job_count = m.job_count + 1 }) (counted (m.job_count == 0) direct job)
next works m idle =
    if m.in_global == 0 then moved m idle else moved (record m { in_global = m.in_global - 1 }) top
next (ticks late) m idle = moved m idle
next c m (counted first direct job) =
    moved (record m { jobs = m.jobs ++ (job ∷ []); arrived = m.arrived ++ (job ∷ []) })
      (pushed first direct)
next c m (pushed first direct) =
    if not first
    then moved m idle
    else if direct
    then moved m top
    else moved (record m { in_global = m.in_global + 1 }) idle
next c m top = moved (record m { jobs = []; in_hand = m.jobs }) (running m.jobs (length m.jobs))
next c m (running (job ∷ rest) size) =
    moved (record m { executed = m.executed ++ (job ∷ []); in_hand = rest }) (running rest size)
next c m (running [] size) =
    moved (record m { job_count = m.job_count - size })
      (if m.job_count == size then idle else check)
next (ticks late) m check =
    if late then moved (record m { in_global = m.in_global + 1 }) idle else moved m top
next (pushes job direct) m check = moved m check
next works m check = moved m check

unfoldable pub fresh : Shared
fresh = record {
  job_count = 0;
  jobs = [];
  in_global = 0;
  arrived = [];
  executed = [];
  in_hand = [];
}
