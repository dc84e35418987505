-- ===== src/UdpReceiver.antt =====
-- ClientNetworkCore/UdpReceiver.h and UdpReceiver.cpp: the receiver of all datagrams, whose senders get
-- their sessions from the service. Packets given to `OnRecv` stand in `log`, with their session.
-- What the network answers, and what a session factory returns, are arguments.
pub mod Receive
mod Tests
use jam_client_prototype.Prelude.{
  ℕ, zero, suc, Bool, true, false, not, Option, none, some, List, [], ◌∷◌, ◌++◌, map, ltb,
  if◌then◌else◌, length, drop,
}
use jam_client_prototype.RecvBuffer.{
  RecvBuffer, Memcpy, create, data_size, free_size, clean, on_read, on_write, store,
}
use jam_client_prototype.Framing.{udp_header_size, is_parsing_packet, Parsed}
use jam_client_prototype.Service.{Service, find_or_create_udp_session}

pub data Effect : Type 0 where
  receives : ℕ → Effect
  on_recv : Option ℕ → List ℕ → Effect

pub record UdpReceiver : Type 0 where
  pub socket_open : Bool
  pub recv_buffer : RecvBuffer
  pub service : Service
  pub log : List Effect

abbrev pub receiver_buffer_size : ℕ
receiver_buffer_size = 0x10000

unfoldable pub create_receiver : Service → UdpReceiver
create_receiver service = record {
  socket_open = false;
  recv_buffer = create receiver_buffer_size;
  service = service;
  log = [];
}

unfoldable pub register_recv : UdpReceiver → UdpReceiver
register_recv r =
    if not r.socket_open
    then r
    else record r { log = r.log ++ (receives (free_size r.recv_buffer) ∷ []) }

-- `for (i = 0; i < maxSessionCount; i++)` of `Start`.
unfoldable pub register_times : ℕ → UdpReceiver → UdpReceiver
unfolding register_recv
register_times zero r = r
register_times (suc n) r = register_times n (register_recv r)

-- `alive` is whether the service still exists.
unfoldable pub start : Bool → ℕ → UdpReceiver → Bool × UdpReceiver
unfolding register_times
start alive max_session_count r =
    if not alive
    then (false, r)
    else (true, register_times max_session_count (record r { socket_open = true }))

abbrev pub deliver : Option ℕ → List (List ℕ) → UdpReceiver → UdpReceiver
deliver session ps r = record r { log = r.log ++ map (on_recv session) ps }

-- The tests on the processed length, then `Clean` and the next receive.
unfoldable pub finish_recv : ⦃mc : Memcpy⦄ → ℕ → ℕ → UdpReceiver → Bool × UdpReceiver
unfolding register_recv
finish_recv size process_len r =
    if ltb size process_len
    then (false, r)
    else (let (accepted, buffer) = on_read process_len r.recv_buffer in
        if not accepted
        then (false, r)
        else (true, register_recv (record r { recv_buffer = clean buffer })))

unfoldable pub process_recv : ⦃mc : Memcpy⦄ → ℕ → Option ℕ → ℕ → UdpReceiver → Bool × UdpReceiver
unfolding find_or_create_udp_session finish_recv
process_recv from created n r =
    let (session, service) = find_or_create_udp_session from created r.service in
    let known = record r { service = service } in
    let (accepted, buffer) = on_write n known.recv_buffer in
    if not accepted
    then (false, known)
    else (let size = data_size buffer in
        let parsed = is_parsing_packet udp_header_size (drop buffer.read_pos buffer.buffer) size in
        finish_recv size parsed.process_len
          (deliver session parsed.packets (record known { recv_buffer = buffer })))

-- The handler of `async_receive_from`: `none` is an error. The result of `ProcessRecv` is not used.
unfoldable pub receive_done :
    ⦃mc : Memcpy⦄ → ℕ → Option ℕ → Option (List ℕ) → UdpReceiver → UdpReceiver
unfolding process_recv
receive_done from created none r = r
receive_done from created (some bytes) r =
    if ltb 0 (length bytes)
    then (process_recv from created (length bytes)
        (record r { recv_buffer = store bytes r.recv_buffer })).1
    else r
