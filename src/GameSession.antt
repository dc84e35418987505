-- ===== src/GameSession.antt =====
-- DummyClient/GameTcpSession.cpp, GameUdpSession.cpp and GameUdpReceiver.cpp: what the sessions of the
-- game do in the calls that the network core makes to them, and the sessions that `SessionManager`
-- and `TimeManager` hold. Sessions are numbers.
pub mod Stream
mod Tests
use jam_client_prototype.Prelude.{ℕ, true, Option, none, some, List, [], ◌∷◌, ◌++◌, drop}
use jam_client_prototype.Framing.{tcp_header_size, udp_header_size}
use jam_client_prototype.ReliableUdp.{ReliableUdpSession}
use jam_client_prototype.PacketHandler.{Handler, Handled, handle_tcp, handle_udp}
use jam_client_prototype.TimeManager.{TimeManager, set_session}

-- `_tcpSession` and `_udpSession` of `SessionManager`, and the packets sent in `OnConnected`, each
-- with its session
pub record SessionManager (D : Type 0) : Type 0 where
  pub tcp_session : Option ℕ
  pub udp_session : Option ℕ
  pub time_manager : TimeManager D
  pub logins : List ℕ

module _ {D : Type 0} where
  -- `GameTcpSession::OnConnected`: it sends `C_LOGIN`.
  unfoldable pub tcp_on_connected : ℕ → SessionManager D → SessionManager D
  tcp_on_connected session m = record m {
    tcp_session = some session;
    time_manager = set_session true m.time_manager;
    logins = m.logins ++ (session ∷ []);
  }

  unfoldable pub tcp_on_disconnected : SessionManager D → SessionManager D
  tcp_on_disconnected m = record m { tcp_session = none }

  unfoldable pub udp_on_connected : ℕ → SessionManager D → SessionManager D
  udp_on_connected session m = record m { udp_session = some session }

  -- `GameUdpSession::OnDisconnected` prints.
  unfoldable pub udp_on_disconnected : SessionManager D → SessionManager D
  udp_on_disconnected m = m

-- `GameTcpSession::OnRecv`: the handler that `HandlePacket` calls, and the bytes that this handler
-- has parsed.
unfoldable pub tcp_on_recv : (ℕ → Handler) → List ℕ → Option Handler × List ℕ
tcp_on_recv table buffer = (handle_tcp table buffer, drop tcp_header_size buffer)

-- `GameUdpReceiver::OnRecv` and `GameUdpSession::OnRecv`
unfoldable pub udp_on_recv :
    {Time : Type 0} → (ℕ → Handler) → List ℕ → ReliableUdpSession Time → Handled Time × List ℕ
udp_on_recv table buffer s = (handle_udp table buffer s, drop udp_header_size buffer)
