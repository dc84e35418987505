-- ===== src/JobTimer/Tests.antt =====
-- JobTimer: two jobs, one of them due.
use jam_client_prototype.Prelude.{ℕ, ◌≡◌, refl, true, false, none, some, [], ◌∷◌, arith}
use jam_client_prototype.JobTimer.{TimerItem, JobTimer, begin_distribute}
use jam_client_prototype.JobTimer.Due.{IsSorted, begin_distribute-lem}

abbrev item : ℕ → TimerItem
item tick = record { execute_tick = tick; owner = 1; job = tick }

abbrev two : JobTimer
two = record { items = item 10 ∷ item 30 ∷ []; distributing = false }

begin_distribute-lem_example :
    (begin_distribute 20 two
      ≡ (some (item 10 ∷ []), record { items = item 30 ∷ []; distributing = true }))
    × IsSorted (item 10 ∷ [])
    × IsSorted (item 30 ∷ [])
    × (begin_distribute 40 (record { items = item 30 ∷ []; distributing = true })
        ≡ (none, record { items = item 30 ∷ []; distributing = true }))
begin_distribute-lem_example = begin_distribute-lem 20 40 two refl ((omega arith, tt), (tt, tt))
