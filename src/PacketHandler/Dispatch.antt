-- ===== src/PacketHandler/Dispatch.antt =====
-- The dispatch of packets: which handler is called, and which acknowledgement goes out.
use jam_client_prototype.Prelude.{
  ℕ, ◌≤◌, ◌<◌, ◌≡◌, refl, ◌∙◌, ◌⊎◌, Bool, true, false, none, some, List, [], arith, ◌==◌,
  if◌then◌else◌, length, any,
}
use jam_client_prototype.Framing.{read_u16}
use jam_client_prototype.Sequence.{seq_mod, sub16}
use jam_client_prototype.ReliableUdp.{
  ReliableUdpSession, find, history_size, recorded, handle_ack, check_and_record_receive_history,
  generate_ack_bitfield,
}
use jam_client_prototype.ReliableUdp.History.{
  record_all, check_and_record_lem, check_and_record_once,
}
use jam_client_prototype.ReliableUdp.Ack.{handle_ack-generate}
use jam_client_prototype.PacketHandler.{
  PacketId, pkt_c_login, pkt_s_login, pkt_c_create_room, pkt_s_create_room, pkt_c_enter_room,
  pkt_s_enter_room, pkt_c_sync_roomlist, pkt_s_sync_roomlist, pkt_c_enter_game, pkt_s_enter_game,
  pkt_c_ack, pkt_s_ack, pkt_c_handshake, pkt_s_handshake, pkt_c_chat, pkt_s_chat, pkt_c_sync_time,
  pkt_s_sync_time, pkt_c_spawn_actor, pkt_s_spawn_actor, pkt_c_sync_actor, pkt_s_sync_actor,
  pkt_c_player_input, pkt_s_player_input, pkt_c_hit_result, pkt_s_hit_result, code, Handler,
  handle_invalid, handle, server_packets, init, handler_at, Ack, handle_udp,
}

abbrev pub is_server : PacketId → Bool
is_server p = any (λ q. code q == code p) server_packets

-- After `Init` the id of each server packet leads to that packet's handler, and the id of each
-- client packet to the invalid one.
pub handler_at-code :
    (p : PacketId)
    → handler_at init (code p) ≡ some (if is_server p then handle p else handle_invalid)
unfolding handler_at init code
handler_at-code pkt_c_login = refl
handler_at-code pkt_s_login = refl
handler_at-code pkt_c_create_room = refl
handler_at-code pkt_s_create_room = refl
handler_at-code pkt_c_enter_room = refl
handler_at-code pkt_s_enter_room = refl
handler_at-code pkt_c_sync_roomlist = refl
handler_at-code pkt_s_sync_roomlist = refl
handler_at-code pkt_c_enter_game = refl
handler_at-code pkt_s_enter_game = refl
handler_at-code pkt_c_ack = refl
handler_at-code pkt_s_ack = refl
handler_at-code pkt_c_handshake = refl
handler_at-code pkt_s_handshake = refl
handler_at-code pkt_c_chat = refl
handler_at-code pkt_s_chat = refl
handler_at-code pkt_c_sync_time = refl
handler_at-code pkt_s_sync_time = refl
handler_at-code pkt_c_spawn_actor = refl
handler_at-code pkt_s_spawn_actor = refl
handler_at-code pkt_c_sync_actor = refl
handler_at-code pkt_s_sync_actor = refl
handler_at-code pkt_c_player_input = refl
handler_at-code pkt_s_player_input = refl
handler_at-code pkt_c_hit_result = refl
handler_at-code pkt_s_hit_result = refl

module _ {Time : Type 0} where
  -- When a session with a history of 1024 slots has answered a packet with an acknowledgement, and
  -- the packet arrives again, it reaches the same handler again, is not acknowledged, and leaves
  -- the session as it is.
  pub handle_udp_again :
      (table : ℕ → Handler) (buffer : List ℕ) (s : ReliableUdpSession Time) (a : Ack)
      → length s.receive_history ≡ history_size
      → (handle_udp table buffer s).answer ≡ some a
      → let first = handle_udp table buffer s in
        let second = handle_udp table buffer first.session in
        (second.answer ≡ none) × (second.handler ≡ first.handler) × (second.session ≡ first.session)
  unfolding handle_udp record_all
  handle_udp_again table buffer s a size acked =
      let seq = read_u16 buffer 4 in
      let t = (check_and_record_receive_history seq s).1 in
      let accepted : (check_and_record_receive_history seq s).0 ≡ true = ground arith in
      let again : (check_and_record_receive_history seq t).0 ≡ false =
        check_and_record_once seq seq [] s size accepted refl in
      ground arith

  -- When a session with a history of 1024 slots answers a packet with an acknowledgement, that is
  -- for the packet's sequence number, and at any sender that handles it neither this number is
  -- pending afterwards nor one up to 32 behind it whose slot was recorded before.
  pub handle_udp_acked :
      (table : ℕ → Handler) (buffer : List ℕ) (s sender : ReliableUdpSession Time) (a : Ack) (j : ℕ)
      → length s.receive_history ≡ history_size
      → read_u16 buffer 4 < seq_mod
      → j < seq_mod
      → (handle_udp table buffer s).answer ≡ some a
      → (sub16 a.latest_sequence j ≡ 0)
        ⊎ ((sub16 a.latest_sequence j ≤ 32) × (recorded s.receive_history j ≡ true))
      → (a.latest_sequence ≡ read_u16 buffer 4)
        × (find j (handle_ack a.latest_sequence a.bitfield sender).pending_ack_map ≡ none)
  unfolding handle_udp
  handle_udp_acked table buffer s sender a j size small range acked near =
      let seq = read_u16 buffer 4 in
      let t = (check_and_record_receive_history seq s).1 in
      let known : (a.latest_sequence ≡ seq) × (a.bitfield ≡ generate_ack_bitfield seq t) =
        ground arith in
      let kept = (check_and_record_lem seq j s size).1 in
      (
        known.0,
        rw (known.0, known.1)
            (handle_ack-generate seq j t sender small range ∙ ground (arith, kept, known.0)),
      )
