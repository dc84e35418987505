-- ===== src/TcpSession.antt =====
-- `TcpSession` of ClientNetworkCore/Session.h and Session.cpp. A method is a function on the session,
-- and what it asks of the socket, of the service and of the derived class stands in `log`, in order.
-- Each method is one step here; TcpSession/Senders takes `Send` apart where other threads come
-- between. What the network answers (an error, a number of bytes, the bytes) is an argument.
pub mod Receive
pub mod Chunks
pub mod Sending
pub mod Senders
pub mod Closing
pub mod Stalled
mod Tests
use jam_client_prototype.Prelude.{
  ℕ, Bool, true, false, ◌||◌, not, Option, none, some, List, [], ◌∷◌, ◌++◌, map, ltb, ◌==◌,
  if◌then◌else◌, length, drop, keep,
}
use jam_client_prototype.RecvBuffer.{
  RecvBuffer, Memcpy, create, data_size, free_size, clean, on_read, on_write, store,
}
use jam_client_prototype.Framing.{tcp_header_size, is_parsing_packet, Parsed}

-- A closed `SendBuffer` as the session sees it: `Buffer()` up to `WriteSize()`, `none` for null.
pub record Outgoing : Type 0 where
  pub bytes : Option (List ℕ)

pub data Effect : Type 0 where
  connects : Effect
  writes : List Outgoing → Effect
  receives : ℕ → Effect
  adds : Effect
  releases : Effect
  on_connected : Effect
  on_disconnected : Effect
  on_send : ℕ → Effect
  on_recv : List ℕ → Effect

pub record TcpSession : Type 0 where
  pub connected : Bool
  pub socket_open : Bool
  pub remote_port : ℕ
  pub send_registered : Bool
  pub send_queue : List Outgoing
  pub current_send_buffers : List Outgoing
  pub recv_buffer : RecvBuffer
  pub log : List Effect

abbrev pub session_buffer_size : ℕ
session_buffer_size = 0x10000

unfoldable pub create_tcp : ℕ → TcpSession
create_tcp port = record {
  connected = false;
  socket_open = false;
  remote_port = port;
  send_registered = false;
  send_queue = [];
  current_send_buffers = [];
  recv_buffer = create session_buffer_size;
  log = [];
}

abbrev pub emit : Effect → TcpSession → TcpSession
emit e s = record s { log = s.log ++ (e ∷ []) }

-- `sendBuffer->Buffer() && sendBuffer->WriteSize() > 0`
unfoldable pub has_bytes : Outgoing → Bool
has_bytes b = elim b.bytes [ none ↦ false | some xs ↦ ltb 0 (length xs) ]

-- The queue is drained whole; empty buffers are dropped.
unfoldable pub register_send : TcpSession → TcpSession
unfolding has_bytes
register_send s =
    if not s.connected || not s.socket_open
    then s
    else if length s.send_queue == 0
    then record s { current_send_buffers = [] }
    else (let batch = keep has_bytes s.send_queue in
        emit (writes batch) (record s { current_send_buffers = batch; send_queue = [] }))

unfoldable pub register_recv : TcpSession → TcpSession
register_recv s =
    if not s.connected || not s.socket_open then s else emit (receives (free_size s.recv_buffer)) s

unfoldable pub register_connect : TcpSession → TcpSession
register_connect s =
    let opened = record s { socket_open = true } in
    if s.remote_port == 0 then opened else emit connects opened

unfoldable pub connect : TcpSession → TcpSession
unfolding register_connect
connect s = register_connect s

unfoldable pub process_connect : TcpSession → TcpSession
unfolding register_recv
process_connect s = register_recv (emit on_connected (emit adds (record s { connected = true })))

unfoldable pub process_disconnect : TcpSession → TcpSession
process_disconnect s =
    let told = emit releases (emit on_disconnected (record s { connected = false })) in
    record told { send_queue = []; current_send_buffers = []; send_registered = false }

-- `close_failed` is the error code of `close`, which closes the descriptor in any case.
unfoldable pub register_disconnect : Bool → TcpSession → TcpSession
unfolding process_disconnect
register_disconnect close_failed s =
    if s.socket_open
    then (let closed = record s { socket_open = false } in
        if close_failed then closed else process_disconnect closed)
    else s

unfoldable pub disconnect : Bool → TcpSession → TcpSession
unfolding register_disconnect
disconnect close_failed s =
    if s.connected then register_disconnect close_failed (record s { connected = false }) else s

-- The block of `Send` under the lock: the push, and whether this call is to register the send.
unfoldable pub enqueue : Outgoing → TcpSession → Bool × TcpSession
enqueue b s = (
  not s.send_registered,
  record s { send_queue = s.send_queue ++ (b ∷ []); send_registered = true },
)

-- `Send` with nothing between its block and `RegisterSend`; TcpSession/Senders has them apart.
unfoldable pub send : Outgoing → TcpSession → TcpSession
unfolding register_send enqueue
send b s =
    if not s.connected
    then s
    else (let (register, queued) = enqueue b s in if register then register_send queued else queued)

unfoldable pub process_send : Bool → ℕ → TcpSession → TcpSession
unfolding register_send disconnect
process_send close_failed n s =
    if n == 0
    then disconnect close_failed s
    else (let told = emit (on_send n) s in
        if length told.send_queue == 0
        then record told { send_registered = false }
        else register_send told)

-- The handler of `async_write`, on success and on failure.
unfoldable pub write_done : Bool → ℕ → TcpSession → TcpSession
unfolding process_send
write_done close_failed n s = process_send close_failed n s

unfoldable pub write_failed : TcpSession → TcpSession
write_failed s = record s {
  send_queue = s.send_queue ++ s.current_send_buffers;
  current_send_buffers = [];
}

-- The end of `ProcessRecv`: the tests on the processed length, then `Clean` and the next receive.
unfoldable pub finish_recv : ⦃mc : Memcpy⦄ → Bool → ℕ → ℕ → TcpSession → TcpSession
unfolding disconnect register_recv
finish_recv close_failed size process_len s =
    if ltb size process_len
    then disconnect close_failed s
    else (let (accepted, buffer) = on_read process_len s.recv_buffer in
        if not accepted
        then disconnect close_failed s
        else register_recv (record s { recv_buffer = clean buffer }))

abbrev pub deliver : List (List ℕ) → TcpSession → TcpSession
deliver ps s = record s { log = s.log ++ map on_recv ps }

unfoldable pub process_recv : ⦃mc : Memcpy⦄ → Bool → ℕ → TcpSession → TcpSession
unfolding finish_recv disconnect
process_recv close_failed n s =
    if n == 0
    then disconnect close_failed s
    else (let (accepted, buffer) = on_write n s.recv_buffer in
        if not accepted
        then disconnect close_failed s
        else (let size = data_size buffer in
            let r = is_parsing_packet tcp_header_size (drop buffer.read_pos buffer.buffer) size in
            finish_recv close_failed size r.process_len
              (deliver r.packets (record s { recv_buffer = buffer }))))

-- The handler of `async_receive`: an error disconnects; otherwise the bytes stand in the buffer.
unfoldable pub receive_failed : Bool → TcpSession → TcpSession
unfolding disconnect
receive_failed close_failed s = disconnect close_failed s

unfoldable pub receive_done : ⦃mc : Memcpy⦄ → Bool → List ℕ → TcpSession → TcpSession
unfolding process_recv
receive_done close_failed bytes s =
    process_recv close_failed (length bytes) (record s { recv_buffer = store bytes s.recv_buffer })
