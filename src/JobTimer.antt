-- ===== src/JobTimer.antt =====
-- ClientNetworkCore/JobTimer.h and JobTimer.cpp: jobs that are pushed to their queues when their tick
-- has come. The priority queue is a list with the next item first; items of one tick stand in the
-- order of their reservation, which the library's queue leaves open. Owners and jobs are numbers.
pub mod Due
mod Tests
use jam_client_prototype.Prelude.{
  ℕ, ◌+◌, Bool, true, false, Option, none, some, List, [], ◌∷◌, ltb, if◌then◌else◌,
}

pub record TimerItem : Type 0 where
  pub execute_tick : ℕ
  pub owner : ℕ
  pub job : ℕ

pub record JobTimer : Type 0 where
  pub items : List TimerItem
  pub distributing : Bool

unfoldable pub create_timer : JobTimer
create_timer = record { items = []; distributing = false }

-- `_items.push`
unfoldable pub push : TimerItem → List TimerItem → List TimerItem
push i [] = i ∷ []
push i (j ∷ js) = if ltb i.execute_tick j.execute_tick then i ∷ (j ∷ js) else j ∷ push i js

unfoldable pub reserve : ℕ → ℕ → ℕ → ℕ → JobTimer → JobTimer
unfolding push
reserve now tick_after owner job t = record t {
  items = push (record { execute_tick = now + tick_after; owner = owner; job = job }) t.items;
}

-- The loop of `Distribute`: the items taken out, and those left.
unfoldable pub take_due : ℕ → List TimerItem → List TimerItem × List TimerItem
take_due now [] = ([], [])
take_due now (i ∷ is) =
    let rest = take_due now is in
    if ltb now i.execute_tick then ([], i ∷ is) else (i ∷ rest.0, rest.1)

-- `Distribute` up to the end of its loop: `none` when another thread distributes.
unfoldable pub begin_distribute : ℕ → JobTimer → Option (List TimerItem) × JobTimer
unfolding take_due
begin_distribute now t = if t.distributing then (none, t) else (
  some (take_due now t.items).0,
  record { items = (take_due now t.items).1; distributing = true },
)

-- The pushes that follow, owner and job, for the owners that are alive.
unfoldable pub pushes : (ℕ → Bool) → List TimerItem → List (ℕ × ℕ)
pushes alive [] = []
pushes alive (i ∷ is) =
    if alive i.owner then (i.owner, i.job) ∷ pushes alive is else pushes alive is

unfoldable pub end_distribute : JobTimer → JobTimer
end_distribute t = record t { distributing = false }

unfoldable pub clear : JobTimer → JobTimer
clear t = record t { items = [] }
