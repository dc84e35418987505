-- ===== src/ServiceStart.antt =====
-- `Service::Start` and `CreateSession` of ClientNetworkCore/Service.cpp. What a session factory returns
-- is an argument, `none` for null.
use jam_client_prototype.Prelude.{
  ℕ, zero, suc, ◌+◌, ◌≡◌, refl, ◌↔◌, Bool, true, false, not, Option, none, some, [], ◌∷◌, ◌++◌,
  arith, if◌then◌else◌, length, length-append,
}
use jam_client_prototype.ThreadManager.{ThreadManager, launch}
use jam_client_prototype.ThreadManager.Ids.{launch_times}
use jam_client_prototype.UdpReceiver.{UdpReceiver, start}

pub data ProtocolType : Type 0 where
  protocol_tcp : ProtocolType
  protocol_udp : ProtocolType

unfoldable pub create_session : Option ℕ → Option ℕ → ProtocolType → Option ℕ
create_session from_tcp_factory from_udp_factory protocol_tcp = from_tcp_factory
create_session from_tcp_factory from_udp_factory protocol_udp = from_udp_factory

-- The loop launches four threads, each of which runs the executor for ever.
pub record Started : Type 0 where
  pub accepted : Bool
  pub threads : ThreadManager
  pub udp_receiver : Option UdpReceiver
  -- the session on which `Connect` was called
  pub connecting : Option ℕ

unfoldable pub start_service :
    Bool → ℕ → Option ℕ → Option ℕ → Option UdpReceiver → ThreadManager → Started
start_service alive max_session_count from_tcp_factory from_udp_factory none threads = record {
  accepted = false;
  threads = launch_times 4 threads;
  udp_receiver = none;
  connecting = none;
}
start_service alive max_session_count from_tcp_factory from_udp_factory (some receiver) threads =
    let (started, r) = start alive max_session_count receiver in
    let running = launch_times 4 threads in
    let refused : Started = record {
      accepted = false;
      threads = running;
      udp_receiver = some r;
      connecting = none;
    } in
    if not started
    then refused
    else elim (create_session from_tcp_factory from_udp_factory protocol_tcp) [
      | none ↦ refused
      | some session ↦ record refused { accepted = true; connecting = some session }
    ]

length-launch_times :
    (n : ℕ) (m : ThreadManager) → length (launch_times n m).threads ≡ length m.threads + n
unfolding launch
length-launch_times zero m = omega arith
length-launch_times (suc n) m =
    let one_more : length (m.threads ++ (m.thread_id ∷ [])) ≡ length m.threads + 1 =
      length-append m.threads (m.thread_id ∷ []) in
    omega (arith, length-launch_times n (launch m), one_more)

-- `Start` succeeds exactly when there is a receiver, the service is alive and the factory returns a
-- session, which is then connected; four threads are launched in every case.
pub start_service_lem :
    (alive : Bool) (max_session_count : ℕ) (tcp udp : Option ℕ) (receiver : Option UdpReceiver)
    (threads : ThreadManager)
    → let s = start_service alive max_session_count tcp udp receiver threads in
      ((s.accepted ≡ true) ↔ (¬ (receiver ≡ none) × (alive ≡ true) × ¬ (tcp ≡ none)))
      × (s.accepted ≡ true → s.connecting ≡ tcp)
      × (length s.threads.threads ≡ length threads.threads + 4)
unfolding start_service start create_session
start_service_lem alive n tcp udp none threads = (
  (λ e. absurd (ground arith), λ h. absurd (h.0 refl)),
  λ e. absurd (ground arith),
  length-launch_times 4 threads,
)
start_service_lem true n none udp (some r) threads = (
  (λ e. absurd (ground arith), λ h. absurd (h.2 refl)),
  λ e. absurd (ground arith),
  length-launch_times 4 threads,
)
start_service_lem false n tcp udp (some r) threads = (
  (λ e. absurd (ground arith), λ h. absurd (ground arith)),
  λ e. absurd (ground arith),
  length-launch_times 4 threads,
)
start_service_lem true n (some x) udp (some r) threads = (
  (λ e. (λ e. absurd (ground arith), refl, λ e. absurd (ground arith)), λ h. refl),
  λ e. refl,
  length-launch_times 4 threads,
)
