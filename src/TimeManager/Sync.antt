-- ===== src/TimeManager/Sync.antt =====
-- The request for the server's time and its answer in DummyClient/TimeManager.cpp, with any frames
-- between.
use jam_client_prototype.Prelude.{ℕ, ◌+◌, ◌≡◌, true, List, [], ◌∷◌}
use jam_client_prototype.FloatOps.{FloatOps}
use jam_client_prototype.TimeManager.{
  TimeManager, sync_time_interval, raw_local_time, advance, update,
}

module _ {D : Type 0} ⦃fl : FloatOps D⦄ where
  -- What `Update` leaves of the clock's rate and of the request that waits for its answer
  abbrev KeepsRequest : TimeManager D → TimeManager D → Type 0
  KeepsRequest t u =
      (u.frequency ≡ t.frequency)
      × (u.sent ≡ t.sent)
      × (u.last_time_sync_sent ≡ t.last_time_sync_sent)

  -- Whether a frame is due to ask for the time
  abbrev pub IsDue : ℕ → TimeManager D → Type 0
  IsDue count t =
      (fl.less_equal sync_time_interval (advance count t).sum_time ≡ true) × (t.has_session ≡ true)

  abbrev Asks : ℕ → TimeManager D → TimeManager D → Type 0
  Asks sending t u =
      (u.frequency ≡ t.frequency)
      × (u.sent ≡ t.sent + 1)
      × (u.last_time_sync_sent ≡ raw_local_time sending t)

  -- Frames, each with the two readings of the counter.
  abbrev pub run_frames : (D → ℕ) → List (ℕ × ℕ) → TimeManager D → TimeManager D
  run_frames to_uint32 [] t = t
  run_frames to_uint32 ((count, sending) ∷ frames) t =
      run_frames to_uint32 frames (update to_uint32 count sending t)
