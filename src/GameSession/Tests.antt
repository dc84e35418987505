-- ===== src/GameSession/Tests.antt =====
-- Two messages to a session, in three segments that cut through both packets.
use jam_client_prototype.RecvBuffer.Moving.{moving}
use jam_client_prototype.Prelude.{
  ℕ, ◌≡◌, refl, sym, ap, true, false, List, [], ◌∷◌, ◌++◌, map, arith, replicate,
}
use jam_client_prototype.RecvBuffer.{
  overlap, clean_overlaps, data_size, free_size, clean, on_read, on_write, store,
}
use jam_client_prototype.RecvBuffer.Stream.{unread}
use jam_client_prototype.Framing.{read_u16, is_parsing_packet}
use jam_client_prototype.SendBuffer.{ok, create_manager}
use jam_client_prototype.SendBuffer.Manage.{create_manager-IsReady}
use jam_client_prototype.TcpSession.{TcpSession, receive_done}
use jam_client_prototype.TcpSession.Receive.{IsLive}
use jam_client_prototype.TcpSession.Chunks.{receive_all, Fits, delivered}
use jam_client_prototype.PacketHandler.{init}
use jam_client_prototype.PacketHandler.Make.{make_send_buffer}
use jam_client_prototype.GameSession.{tcp_on_recv}
use jam_client_prototype.GameSession.Stream.{
  Message, bytes_of, make_all, meant, receive_all-make_all,
}

abbrev quiet : TcpSession
quiet = record {
  connected = true;
  socket_open = true;
  remote_port = 7777;
  send_registered = false;
  send_queue = [];
  current_send_buffers = [];
  recv_buffer = record {
    capacity = 24;
    buffer_size = 12;
    read_pos = 0;
    write_pos = 0;
    buffer = replicate 24 0;
  };
  log = [];
}

quiet-IsLive : IsLive quiet
quiet-IsLive = record {
  connected = refl;
  socket = refl;
  valid = record { sized = refl; ordered = omega arith; within = omega arith };
}

abbrev greetings : List Message
greetings = (1015, 104 ∷ (105 ∷ [])) ∷ ((1001, 9 ∷ []) ∷ [])

abbrev packed : List (List ℕ)
packed = (6 ∷ 0 ∷ 247 ∷ 3 ∷ 104 ∷ 105 ∷ []) ∷ ((5 ∷ 0 ∷ 233 ∷ 3 ∷ 9 ∷ []) ∷ [])

greetings-make_all : make_all greetings create_manager ≡ ok packed
unfolding make_all make_send_buffer create_manager
greetings-make_all = refl

abbrev segments : List (List ℕ)
segments = (247 ∷ 3 ∷ 104 ∷ 105 ∷ 5 ∷ 0 ∷ []) ∷ ((233 ∷ 3 ∷ 9 ∷ []) ∷ [])

segments-Fits : Fits ⦃mc = moving⦄ false ((6 ∷ 0 ∷ []) ∷ segments) quiet
unfolding receive_done read_u16 on_write store data_size is_parsing_packet on_read clean free_size
    clean_overlaps overlap
segments-Fits = (
  omega arith,
  omega arith,
  refl,
  (omega arith, omega arith, refl, (omega arith, omega arith, refl, tt)),
)

receive_all-make_all_example :
    let r = receive_all ⦃mc = moving⦄ false ((6 ∷ 0 ∷ []) ∷ segments) quiet in
    ((packets : List (List ℕ)) × (make_all greetings create_manager ≡ ok packets))
    × (map (tcp_on_recv init) (delivered r.log)
        ≡ map (tcp_on_recv init) (delivered quiet.log) ++ map (meant init) greetings)
    × (unread r.recv_buffer ≡ [])
    × IsLive r
unfolding data_size
receive_all-make_all_example =
    receive_all-make_all ⦃mc = moving⦄ init greetings create_manager false (6 ∷ 0 ∷ []) segments
      quiet create_manager-IsReady (omega arith, omega arith, (omega arith, omega arith, tt))
      quiet-IsLive refl segments-Fits (sym (ap bytes_of greetings-make_all))
