-- ===== src/TimeManager/Tests.antt =====
-- A counter of ten ticks a second, read in four frames.
use jam_client_prototype.Prelude.{ℕ, ◌+◌, ◌/◌, true, List, [], ◌∷◌}
use jam_client_prototype.FloatOps.Whole.{whole_numbers}
use jam_client_prototype.TimeManager.{TimeManager, init, set_session}

abbrev whole : ℕ → ℕ
whole n = n

abbrev mean : ℕ → ℕ → ℕ → ℕ
mean a b t = (a + b) / 2

abbrev opened : TimeManager ℕ
opened = set_session true (init 10 100)

abbrev frames : List (ℕ × ℕ)
frames = (130, 130) ∷ ((140, 140) ∷ [])
