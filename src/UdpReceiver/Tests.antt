-- ===== src/UdpReceiver/Tests.antt =====
-- UdpReceiver: a receiver with a small buffer.
use jam_client_prototype.Framing.{read_u16, is_parsing_packet}
use jam_client_prototype.RecvBuffer.Moving.{moving}
use jam_client_prototype.Prelude.{ℕ, refl, true, some, List, [], ◌∷◌, arith, replicate}
use jam_client_prototype.RecvBuffer.{
  overlap, clean_overlaps, overlap, clean_overlaps, on_read, data_size, store, on_write, free_size,
}
use jam_client_prototype.RecvBuffer.Bounds.{IsValid}
use jam_client_prototype.Service.{create_service}
use jam_client_prototype.UdpReceiver.{UdpReceiver, receive_done}
use jam_client_prototype.UdpReceiver.Receive.{Received, datagram-Received}

-- The bytes that wait say that the packet has two bytes.
abbrev spoiled : UdpReceiver
spoiled = record {
  socket_open = true;
  recv_buffer = record {
    capacity = 20;
    buffer_size = 2;
    read_pos = 0;
    write_pos = 6;
    buffer = 2 ∷ 0 ∷ 1 ∷ 0 ∷ 0 ∷ 0 ∷ replicate 14 0;
  };
  service = create_service;
  log = [];
}

spoiled-IsValid : IsValid spoiled.recv_buffer
spoiled-IsValid = record { sized = refl; ordered = omega arith; within = omega arith }

abbrev datagram : List ℕ
datagram = 7 ∷ 0 ∷ 1 ∷ 0 ∷ 0 ∷ 0 ∷ 9 ∷ []

abbrev clear : UdpReceiver
clear = record spoiled { recv_buffer = record spoiled.recv_buffer { write_pos = 0 } }

datagram-Received_example :
    Received 80
      (some 1)
      datagram
      clear
      (receive_done ⦃mc = moving⦄ 80 (some 1) (some datagram) clear)
unfolding receive_done read_u16 on_write store data_size is_parsing_packet on_read free_size
    clean_overlaps overlap
datagram-Received_example =
    datagram-Received ⦃mc = moving⦄ 80 (some 1) datagram clear refl
      (record { sized = refl; ordered = omega arith; within = omega arith }) (omega arith)
      (omega arith) refl
