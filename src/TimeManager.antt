-- ===== src/TimeManager.antt =====
-- DummyClient/TimeManager.cpp: frame times, the requests for the server's time, and the client's
-- estimate of it. A `double` is of any type with the operations of FloatOps; what the performance
-- counter reads at each call is an argument, as are `std::lerp` and the cast to a `uint32`.
pub mod Sync
mod Tests
use jam_client_prototype.Prelude.{ℕ, ◌+◌, ◌-◌, ◌%◌, ◌^◌, Bool, false, if◌then◌else◌}
use jam_client_prototype.FloatOps.{FloatOps, ◌⊕◌, ◌⊖◌, ◌⊗◌, ◌⊘◌}

pub record TimeManager (D : Type 0) : Type 0 where
  pub frequency : ℕ
  pub prev_count : ℕ
  pub delta_time : D
  pub adjust_delta_time : D
  pub time_scale : D
  pub frame_count : ℕ
  pub frame_time : D
  pub fps : ℕ
  pub sum_time : D
  pub last_time_sync_sent : D
  pub base_server_time : D
  pub base_local_time : D
  pub latest_rtt : D
  pub avg_rtt : D
  pub jitter : D
  pub has_session : Bool
  -- how many `C_SYNC_TIME` were sent
  pub sent : ℕ

module _ {D : Type 0} where
  unfoldable pub set_session : Bool → TimeManager D → TimeManager D
  set_session session t = record t { has_session = session }

  unfoldable pub shutdown : TimeManager D → TimeManager D
  shutdown t = record t { has_session = false }

module _ {D : Type 0} ⦃fl : FloatOps D⦄ where
  abbrev pub logic_tick_interval : D
  logic_tick_interval = fl.of_uint 1 ⊘ fl.of_uint 30

  abbrev pub sync_time_interval : D
  sync_time_interval = fl.of_uint 5

  -- The members as they are declared, and `Init`, which reads the frequency and the counter.
  unfoldable pub init : ℕ → ℕ → TimeManager D
  init frequency count =
      let nought = fl.of_uint 0 in
      record {
        frequency = frequency;
        prev_count = count;
        delta_time = nought;
        adjust_delta_time = nought;
        time_scale = fl.of_uint 1;
        frame_count = 0;
        frame_time = nought;
        fps = 0;
        sum_time = sync_time_interval ⊖ fl.of_uint 1;
        last_time_sync_sent = nought;
        base_server_time = nought;
        base_local_time = nought;
        latest_rtt = nought;
        avg_rtt = nought;
        jitter = nought;
        has_session = false;
        sent = 0;
      }

  -- `GetRawLocalTime` and `GetClientTime` when the counter reads `count`
  unfoldable pub raw_local_time : ℕ → TimeManager D → D
  raw_local_time count t = fl.of_uint count ⊘ fl.of_uint t.frequency

  unfoldable pub client_time : ℕ → TimeManager D → D
  client_time count t = t.base_server_time ⊕ (raw_local_time count t ⊖ t.base_local_time)

  -- The first lines of `Update`: the `uint64` difference of the counters, and the sums.
  unfoldable pub advance : ℕ → TimeManager D → TimeManager D
  advance count t =
      let delta = fl.of_uint ((count + 2 ^ 64 - t.prev_count) % 2 ^ 64) ⊘ fl.of_uint t.frequency in
      let adjusted = delta ⊗ t.time_scale in
      record t {
        delta_time = delta;
        adjust_delta_time = adjusted;
        prev_count = count;
        frame_count = (t.frame_count + 1) % 2 ^ 32;
        frame_time = t.frame_time ⊕ adjusted;
        sum_time = t.sum_time ⊕ delta;
      }

  -- `if (_sumTime >= SYNC_TIME_INTERVAL)`; `sending` is the counter when the request is sent.
  unfoldable pub sync : ℕ → TimeManager D → TimeManager D
  sync sending t =
      if fl.less_equal sync_time_interval t.sum_time
      then (let asked =
            if t.has_session
            then record t { last_time_sync_sent = raw_local_time sending t; sent = t.sent + 1 }
            else t in
          record asked { sum_time = fl.of_uint 0 })
      else t

  -- `if (_frameTime >= 1.f)`
  unfoldable pub count_frames : (D → ℕ) → TimeManager D → TimeManager D
  count_frames to_uint32 t =
      if fl.less_equal (fl.of_uint 1) t.frame_time
      then record t {
        fps = to_uint32 (fl.of_uint t.frame_count ⊘ t.frame_time);
        frame_time = fl.of_uint 0;
        frame_count = 0;
      }
      else t

  unfoldable pub update : (D → ℕ) → ℕ → ℕ → TimeManager D → TimeManager D
  update to_uint32 count sending t = count_frames to_uint32 (sync sending (advance count t))

  -- `OnServerTimeReceived`, when the counter reads `count`
  unfoldable pub on_server_time_received : (D → D → D → D) → ℕ → D → TimeManager D → TimeManager D
  on_server_time_received std_lerp count server_time t =
      let now = raw_local_time count t in
      let latest = now ⊖ t.last_time_sync_sent in
      let avg = std_lerp t.avg_rtt latest (fl.literal 1 10) in
      record t {
        latest_rtt = latest;
        avg_rtt = avg;
        jitter = fl.fabs (latest ⊖ avg);
        base_server_time = (server_time ⊖ (latest ⊗ fl.literal 1 2)) ⊖ logic_tick_interval;
        base_local_time = now;
      }
