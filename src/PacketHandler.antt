-- ===== src/PacketHandler.antt =====
-- DummyClient/ServerPacketHandler.h: the packet ids, the handler tables and the dispatch of a received
-- packet. The handlers (ServerPacketHandler.cpp) and the protocol's parser are parameters: the tables
-- hold which handler is called. Both tables, for TCP and for UDP, are filled alike.
pub mod Dispatch
pub mod Make
pub mod Wire
mod Tests
use jam_client_prototype.Prelude.{
  ℕ, Bool, false, ◌&&◌, Option, none, some, List, [], ◌∷◌, ltb, ◌==◌, if◌then◌else◌, drop,
}
use jam_client_prototype.Framing.{read_u16}
use jam_client_prototype.ReliableUdp.{
  ReliableUdpSession, check_and_record_receive_history, generate_ack_bitfield,
}

pub data PacketId : Type 0 where
  pkt_c_login : PacketId
  pkt_s_login : PacketId
  pkt_c_create_room : PacketId
  pkt_s_create_room : PacketId
  pkt_c_enter_room : PacketId
  pkt_s_enter_room : PacketId
  pkt_c_sync_roomlist : PacketId
  pkt_s_sync_roomlist : PacketId
  pkt_c_enter_game : PacketId
  pkt_s_enter_game : PacketId
  pkt_c_ack : PacketId
  pkt_s_ack : PacketId
  pkt_c_handshake : PacketId
  pkt_s_handshake : PacketId
  pkt_c_chat : PacketId
  pkt_s_chat : PacketId
  pkt_c_sync_time : PacketId
  pkt_s_sync_time : PacketId
  pkt_c_spawn_actor : PacketId
  pkt_s_spawn_actor : PacketId
  pkt_c_sync_actor : PacketId
  pkt_s_sync_actor : PacketId
  pkt_c_player_input : PacketId
  pkt_s_player_input : PacketId
  pkt_c_hit_result : PacketId
  pkt_s_hit_result : PacketId

unfoldable pub code : PacketId → ℕ
code pkt_c_login = 1000
code pkt_s_login = 1001
code pkt_c_create_room = 1002
code pkt_s_create_room = 1003
code pkt_c_enter_room = 1004
code pkt_s_enter_room = 1005
code pkt_c_sync_roomlist = 1006
code pkt_s_sync_roomlist = 1007
code pkt_c_enter_game = 1008
code pkt_s_enter_game = 1009
code pkt_c_ack = 1010
code pkt_s_ack = 1011
code pkt_c_handshake = 1012
code pkt_s_handshake = 1013
code pkt_c_chat = 1014
code pkt_s_chat = 1015
code pkt_c_sync_time = 1016
code pkt_s_sync_time = 1017
code pkt_c_spawn_actor = 1018
code pkt_s_spawn_actor = 1019
code pkt_c_sync_actor = 1020
code pkt_s_sync_actor = 1021
code pkt_c_player_input = 1022
code pkt_s_player_input = 1023
code pkt_c_hit_result = 1024
code pkt_s_hit_result = 1025

pub data Handler : Type 0 where
  handle_invalid : Handler
  handle : PacketId → Handler

-- `UINT16_MAX`, the number of entries of a table.
abbrev pub table_size : ℕ
table_size = 65535

-- The packets whose handlers `Init` installs, in its order.
abbrev pub server_packets : List PacketId
server_packets =
    pkt_s_login ∷ pkt_s_create_room ∷ pkt_s_enter_room ∷ pkt_s_sync_roomlist ∷ pkt_s_enter_game
    ∷ pkt_s_ack ∷ pkt_s_handshake ∷ pkt_s_chat ∷ pkt_s_sync_time ∷ pkt_s_spawn_actor
    ∷ pkt_s_sync_actor ∷ pkt_s_player_input ∷ pkt_s_hit_result ∷ []

unfoldable pub install : List PacketId → (ℕ → Handler) → ℕ → Handler
unfolding code
install [] table = table
install (p ∷ ps) table = install ps (λ j. if code p == j then handle p else table j)

unfoldable pub init : ℕ → Handler
unfolding install
init = install server_packets (λ _. handle_invalid)

-- `GPacketHandler[id]`; `none` is an access behind the end of the table.
unfoldable pub handler_at : (ℕ → Handler) → ℕ → Option Handler
handler_at table id = if ltb id table_size then some (table id) else none

-- The second `HandlePacket`: parse the payload and call the handler.
unfoldable pub handle_payload {ℓ} :
    {P : Type ℓ} → (List ℕ → Option P) → (P → Bool) → ℕ → List ℕ → Bool
handle_payload parse func header buffer = elim (parse (drop header buffer)) [
  | none ↦ false
  | some p ↦ func p
]

-- `HandlePacket<TcpPacketHeader>`: the handler that is called.
unfoldable pub handle_tcp : (ℕ → Handler) → List ℕ → Option Handler
unfolding handler_at read_u16
handle_tcp table buffer = handler_at table (read_u16 buffer 2)

-- The `C_ACK` that answers a packet.
pub record Ack : Type 0 where
  pub latest_sequence : ℕ
  pub bitfield : ℕ

pub record Handled (Time : Type 0) : Type 0 where
  pub answer : Option Ack
  pub handler : Option Handler
  pub session : ReliableUdpSession Time

-- `HandlePacket<UdpPacketHeader>`: the acknowledgement sent, the handler called, and the session.
unfoldable pub handle_udp :
    {Time : Type 0} → (ℕ → Handler) → List ℕ → ReliableUdpSession Time → Handled Time
unfolding handler_at read_u16 check_and_record_receive_history
handle_udp table buffer s =
    let seq = read_u16 buffer 4 in
    let called = handler_at table (read_u16 buffer 2) in
    let (accepted, t) = check_and_record_receive_history seq s in
    if ltb 0 seq && accepted
    then record {
      answer = some (record { latest_sequence = seq; bitfield = generate_ack_bitfield seq t });
      handler = called;
      session = t;
    }
    else record { answer = none; handler = called; session = s }
