-- ===== src/TcpSession/Receive.antt =====
-- `TcpSession::ProcessRecv`: what one receive delivers, and that it leaves the session receiving.
use jam_client_prototype.Prelude.{
  ℕ, ◌≤◌, ◌<◌, ◌≡◌, refl, Bool, true, false, List, [], ◌∷◌, ◌++◌, map, arith, length,
}
use jam_client_prototype.RecvBuffer.{Memcpy, free_size}
use jam_client_prototype.RecvBuffer.Bounds.{IsValid}
use jam_client_prototype.RecvBuffer.Stream.{unread}
use jam_client_prototype.Framing.{tcp_header_size}
use jam_client_prototype.Framing.Split.{Splits}
use jam_client_prototype.Framing.Intake.{parsed, overlaps, cleaned, intake-Taken}
use jam_client_prototype.TcpSession.{TcpSession, receives, on_recv, receive_done}

-- A session that can receive: connected, with a valid buffer.
pub record IsLive (s : TcpSession) : Type 0 where
  pub connected : s.connected ≡ true
  pub socket : s.socket_open ≡ true
  pub valid : IsValid s.recv_buffer

-- What a receive of `bytes` does to a live session.
pub record Received (s : TcpSession) (bytes : List ℕ) (t : TcpSession) : Type 0 where
  pub packets : List (List ℕ)
  pub splits : Splits tcp_header_size (unread s.recv_buffer ++ bytes) packets (unread t.recv_buffer)
  pub live : IsLive t
  pub told : t.log ≡ (s.log ++ map on_recv packets) ++ (receives (free_size t.recv_buffer) ∷ [])

-- Where `Clean` then copies no overlapping ranges, a receive of at least one byte that fits into the
-- free space of a live session delivers the
-- packets that stand at the front of what was unread followed by the new bytes, keeps the rest
-- unread, and leaves the session live with the next receive started on all its free space: none
-- of the three disconnecting tests fires.
pub receive_done-Received :
    ⦃mc : Memcpy⦄
    → (close_failed : Bool) (bytes : List ℕ) (s : TcpSession) → IsLive s
    → 0 < length bytes
    → length bytes ≤ free_size s.recv_buffer
    → overlaps tcp_header_size bytes s.recv_buffer ≡ false
    → Received s bytes (receive_done close_failed bytes s)
unfolding receive_done
receive_done-Received close_failed bytes s live some_bytes fits apart =
    let taken =
      intake-Taken tcp_header_size bytes s.recv_buffer (omega arith) live.valid fits apart in
    let new = cleaned tcp_header_size bytes s.recv_buffer in
    let packets = (parsed tcp_header_size bytes s.recv_buffer).packets in
    let code : receive_done close_failed bytes s ≡ record s {
      recv_buffer = new;
      log = (s.log ++ map on_recv packets) ++ (receives (free_size new) ∷ []);
    } =
      ground (arith, taken.accepted, taken.short, taken.read, live.connected, live.socket) in
    rw code (record {
      packets = packets;
      splits = taken.splits;
      live = record { connected = live.connected; socket = live.socket; valid = taken.valid };
      told = refl;
    })
