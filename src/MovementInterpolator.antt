-- ===== src/MovementInterpolator.antt =====
-- `MovementInterpolator` of DummyClient/MovementInterpolator.h and MovementInterpolator.cpp: the
-- snapshots of a remote actor in the order of their times. A time is of any type: `before s t` stands
-- for `s < t`, `cutoff t` for `t - 0.5f` and `beyond now t` for `now - t > _extrapolationLimit`. What a
-- snapshot carries beside its time is of any type.
pub mod Order
pub mod Drawn
mod Tests
use jam_client_prototype.Prelude.{Bool, Option, none, some, List, [], ◌∷◌, if◌then◌else◌}

pub record Snapshot (Time State : Type 0) : Type 0 where
  pub timestamp : Time
  pub state : State

-- What `Process` draws: between two snapshots, ahead of the last one, or what it drew before.
pub data Rendered (Time State : Type 0) : Type 0 where
  interpolated : Snapshot Time State → Snapshot Time State → Rendered Time State
  extrapolated : Snapshot Time State → Rendered Time State
  unchanged : Rendered Time State

module _ {Time State : Type 0} (before : Time → Time → Bool) where
  -- `upper_bound` and `insert`: behind the snapshots that are not later.
  unfoldable pub insert_snapshot :
      Snapshot Time State → List (Snapshot Time State) → List (Snapshot Time State)
  insert_snapshot snap [] = snap ∷ []
  insert_snapshot snap (s ∷ ss) =
      let rest = insert_snapshot snap ss in
      if before snap.timestamp s.timestamp then snap ∷ (s ∷ ss) else s ∷ rest

  -- `find_if` and `erase`: up to the first snapshot that is not before the limit.
  unfoldable pub drop_before : Time → List (Snapshot Time State) → List (Snapshot Time State)
  drop_before limit [] = []
  drop_before limit (s ∷ ss) =
      let rest = drop_before limit ss in if before s.timestamp limit then rest else s ∷ ss

  unfoldable pub add_snapshot :
      (Time → Time) → Snapshot Time State → List (Snapshot Time State) → List (Snapshot Time State)
  unfolding insert_snapshot drop_before
  add_snapshot cutoff snap ss = drop_before (cutoff snap.timestamp) (insert_snapshot snap ss)

  -- `Interpolate`: the first snapshot that is not before `time`, and the one in front of it.
  unfoldable pub bracket :
      Time → List (Snapshot Time State) → Option (Snapshot Time State × Snapshot Time State)
  bracket time [] = none
  bracket time (s ∷ []) = none
  bracket time (s ∷ (s' ∷ ss)) =
      let rest = bracket time (s' ∷ ss) in
      if before s.timestamp time
      then if before s'.timestamp time then rest else some (s, s')
      else none

  unfoldable pub last_snapshot : List (Snapshot Time State) → Option (Snapshot Time State)
  last_snapshot [] = none
  last_snapshot (s ∷ []) = some s
  last_snapshot (s ∷ (s' ∷ ss)) = last_snapshot (s' ∷ ss)

  -- `Extrapolate`
  unfoldable pub extrapolate :
      (Time → Time → Bool) → Time → List (Snapshot Time State) → Rendered Time State
  unfolding last_snapshot
  extrapolate beyond now ss = elim (last_snapshot ss) [
    | none ↦ unchanged
    | some s ↦ if beyond now s.timestamp then unchanged else extrapolated s
  ]

  unfoldable pub process :
      (Time → Time → Bool) → Time → Time → List (Snapshot Time State) → Rendered Time State
  unfolding bracket extrapolate
  process beyond now render_time ss = elim (bracket render_time ss) [
    | none ↦ extrapolate beyond now ss
    | some around ↦ interpolated around.0 around.1
  ]
