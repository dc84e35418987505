-- ===== src/TcpSession/Tests.antt =====
-- TcpSession: a connected session on which the theorems apply.
use jam_client_prototype.RecvBuffer.Moving.{moving}
use jam_client_prototype.Prelude.{
  ℕ, ◌+◌, ◌≤◌, ◌≡◌, refl, true, false, some, List, [], ◌∷◌, ◌++◌, arith, replicate,
}
use jam_client_prototype.RecvBuffer.{
  overlap, clean_overlaps, data_size, free_size, clean, on_read, on_write, store,
}
use jam_client_prototype.RecvBuffer.Stream.{unread}
use jam_client_prototype.Framing.{read_u16, is_parsing_packet}
use jam_client_prototype.TcpSession.{TcpSession, Outgoing, has_bytes, receive_done}
use jam_client_prototype.TcpSession.Stalled.{receive_all_stalls}
use jam_client_prototype.TcpSession.Receive.{IsLive}
use jam_client_prototype.TcpSession.Chunks.{receive_all, Fits, delivered, receive_all_same}
use jam_client_prototype.TcpSession.Sending.{written}
use jam_client_prototype.TcpSession.Senders.{
  Event, pushes, registers, completes, Senders, IsOrderly, idle, run_senders, sent,
}
use jam_client_prototype.TcpSession.Senders.Order.{run_senders_lem}

abbrev live : TcpSession
live = record {
  connected = true;
  socket_open = true;
  remote_port = 7777;
  send_registered = false;
  send_queue = [];
  current_send_buffers = [];
  recv_buffer = record {
    capacity = 20;
    buffer_size = 2;
    read_pos = 0;
    write_pos = 0;
    buffer = replicate 20 0;
  };
  log = [];
}

abbrev buffer : ℕ → Outgoing
buffer n = record { bytes = some (n ∷ []) }

live-IsLive : IsLive live
live-IsLive = record {
  connected = refl;
  socket = refl;
  valid = record { sized = refl; ordered = omega arith; within = omega arith };
}

in_two-Fits : Fits ⦃mc = moving⦄ false ((5 ∷ 0 ∷ []) ∷ (1 ∷ 0 ∷ 9 ∷ 4 ∷ []) ∷ []) live
unfolding receive_done read_u16 on_write store data_size is_parsing_packet on_read clean free_size
    clean_overlaps overlap
in_two-Fits = (omega arith, omega arith, refl, (omega arith, omega arith, refl, tt))

in_one-Fits : Fits ⦃mc = moving⦄ false ((5 ∷ 0 ∷ 1 ∷ 0 ∷ 9 ∷ 4 ∷ []) ∷ []) live
unfolding receive_done read_u16 on_write store data_size is_parsing_packet on_read clean free_size
    clean_overlaps overlap
in_one-Fits = (omega arith, omega arith, refl, tt)

in_two :
    delivered (receive_all ⦃mc = moving⦄ false ((5 ∷ 0 ∷ []) ∷ (1 ∷ 0 ∷ 9 ∷ 4 ∷ []) ∷ []) live).log
    ≡ (5 ∷ 0 ∷ 1 ∷ 0 ∷ 9 ∷ []) ∷ []
unfolding receive_all receive_done read_u16 on_write store data_size is_parsing_packet on_read clean
in_two = refl

receive_all_same_example :
    (delivered (receive_all ⦃mc = moving⦄ false ((5 ∷ 0 ∷ []) ∷ (1 ∷ 0 ∷ 9 ∷ 4 ∷ []) ∷ []) live).log
      ≡ delivered (receive_all ⦃mc = moving⦄ false ((5 ∷ 0 ∷ 1 ∷ 0 ∷ 9 ∷ 4 ∷ []) ∷ []) live).log)
    × (unread
          (receive_all ⦃mc = moving⦄ false
            ((5 ∷ 0 ∷ []) ∷ (1 ∷ 0 ∷ 9 ∷ 4 ∷ []) ∷ [])
            live).recv_buffer
        ≡ unread
            (receive_all ⦃mc = moving⦄ false ((5 ∷ 0 ∷ 1 ∷ 0 ∷ 9 ∷ 4 ∷ []) ∷ []) live).recv_buffer)
receive_all_same_example =
    receive_all_same ⦃mc = moving⦄ false (5 ∷ 0 ∷ []) (5 ∷ 0 ∷ 1 ∷ 0 ∷ 9 ∷ 4 ∷ [])
      ((1 ∷ 0 ∷ 9 ∷ 4 ∷ []) ∷ []) [] live live-IsLive in_two-Fits in_one-Fits refl

-- Two threads push while a third is about to register the send; the write that it starts completes.
abbrev rush : List Event
rush =
    pushes (buffer 3)
    ∷ (pushes (buffer 4) ∷ (registers ∷ (pushes (buffer 5) ∷ (completes ∷ (completes ∷ [])))))

abbrev at_rest : Senders
at_rest = record { session = live; registering = 0; writing = 0 }

at_rest-IsOrderly : IsOrderly at_rest
at_rest-IsOrderly = record {
  connected = refl;
  socket = refl;
  full = tt;
  turn = idle;
  holds = (refl, refl, refl, refl);
}

rush-written :
    written (run_senders rush at_rest).session.log ≡ buffer 3 ∷ (buffer 4 ∷ (buffer 5 ∷ []))
unfolding run_senders
rush-written = refl

run_senders_lem_example :
    ((run_senders rush at_rest).registering + (run_senders rush at_rest).writing ≤ 1)
    × (written (run_senders rush at_rest).session.log
          ++ (run_senders rush at_rest).session.send_queue
        ≡ (written at_rest.session.log ++ at_rest.session.send_queue) ++ sent rush)
    × ((run_senders rush at_rest).registering + (run_senders rush at_rest).writing ≡ 0
        → (run_senders rush at_rest).session.send_queue ≡ [])
    × ((run_senders rush at_rest).session.connected ≡ true)
unfolding has_bytes
run_senders_lem_example = run_senders_lem rush at_rest at_rest-IsOrderly (refl, (refl, (refl, tt)))

-- The bytes that wait say that the packet has two bytes.
abbrev spoiled : TcpSession
spoiled = record live {
  recv_buffer = record {
    capacity = 20;
    buffer_size = 2;
    read_pos = 0;
    write_pos = 4;
    buffer = 2 ∷ 0 ∷ 1 ∷ 0 ∷ replicate 16 0;
  };
}

spoiled-IsLive : IsLive spoiled
spoiled-IsLive = record {
  connected = refl;
  socket = refl;
  valid = record { sized = refl; ordered = omega arith; within = omega arith };
}

spoiled-Fits : Fits ⦃mc = moving⦄ false ((4 ∷ 0 ∷ 1 ∷ 0 ∷ []) ∷ []) spoiled
unfolding receive_done read_u16 on_write store data_size is_parsing_packet on_read clean free_size
    clean_overlaps overlap
spoiled-Fits = (omega arith, omega arith, refl, tt)

receive_all_stalls_example :
    (delivered (receive_all ⦃mc = moving⦄ false ((4 ∷ 0 ∷ 1 ∷ 0 ∷ []) ∷ []) spoiled).log ≡ [])
    × ((receive_all ⦃mc = moving⦄ false ((4 ∷ 0 ∷ 1 ∷ 0 ∷ []) ∷ []) spoiled).connected ≡ true)
    × ((receive_all ⦃mc = moving⦄ false ((4 ∷ 0 ∷ 1 ∷ 0 ∷ []) ∷ []) spoiled).socket_open ≡ true)
    × ((receive_done ⦃mc = moving⦄ false []
          (receive_all ⦃mc = moving⦄ false ((4 ∷ 0 ∷ 1 ∷ 0 ∷ []) ∷ []) spoiled)).connected
        ≡ false)
unfolding data_size read_u16
receive_all_stalls_example =
    receive_all_stalls ⦃mc = moving⦄ false (4 ∷ 0 ∷ 1 ∷ 0 ∷ []) [] spoiled spoiled-IsLive
      spoiled-Fits (omega arith) (omega arith)
