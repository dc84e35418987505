-- ===== src/PacketHandler/Tests.antt =====
-- PacketHandler: packets made on a new manager and handled by a new session.
use jam_client_prototype.Prelude.{
  ℕ, ◌≡◌, refl, inl, Bool, true, false, none, some, List, [], ◌∷◌, arith, leb, length, drop,
  length-replicate,
}
use jam_client_prototype.Framing.{read_u16, is_parsing_packet}
use jam_client_prototype.Sequence.{sub16, is_seq_greater}
use jam_client_prototype.ReliableUdp.{create_udp, find, handle_ack, generate_ack_bitfield}
use jam_client_prototype.SendBuffer.{ok, SendBuffer, SendBufferManager, create_manager}
use jam_client_prototype.SendBuffer.Manage.{create_manager-IsReady}
use jam_client_prototype.PacketHandler.{
  pkt_s_chat, code, handle, init, handler_at, handle_tcp, handle_payload, Ack, Handled, handle_udp,
}
use jam_client_prototype.PacketHandler.Make.{make_send_buffer, contents}
use jam_client_prototype.PacketHandler.Wire.{make_send_buffer-parsed}
use jam_client_prototype.PacketHandler.Dispatch.{handle_udp_acked}

abbrev text : List ℕ
text = 104 ∷ 105 ∷ []

-- A chat packet with sequence number 3.
abbrev chat : List ℕ
chat = 8 ∷ 0 ∷ 247 ∷ 3 ∷ 3 ∷ 0 ∷ 104 ∷ 105 ∷ []

chat_handled : handler_at init (read_u16 chat 2) ≡ some (handle pkt_s_chat)
unfolding handler_at init read_u16 code
chat_handled = refl

make_send_buffer-parsed_example :
    (b : SendBuffer) × ((t : SendBufferManager) × (make_send_buffer 4 1015 text create_manager
        ≡ ok (b, t))
      × (((is_parsing_packet 4 (contents b t) (length (contents b t))).packets ≡ contents b t ∷ [])
          × (drop
                (is_parsing_packet 4 (contents b t) (length (contents b t))).process_len
                (contents b t)
              ≡ [])
          × (handle_tcp init (contents b t) ≡ handler_at init 1015)
          × (handle_payload some (λ p. leb (length p) 2) 4 (contents b t) ≡ true)))
make_send_buffer-parsed_example =
    make_send_buffer-parsed 4 1015 text create_manager init some (λ p. leb (length p) 2)
      create_manager-IsReady (omega arith) (omega arith) (omega arith)

abbrev first : Handled ℕ
first = handle_udp init chat (create_udp ℕ)

new-size : length (create_udp ℕ).receive_history ≡ 1024
unfolding create_udp
new-size = length-replicate {0} {A = Bool} 1024 false

abbrev answer : Ack
answer = record { latest_sequence = 3; bitfield = generate_ack_bitfield 3 first.session }

answered : first.answer ≡ some answer
unfolding handle_udp create_udp read_u16 is_seq_greater
answered = refl

handle_udp_acked_example :
    (3 ≡ read_u16 chat 4)
    × (find 3 (handle_ack 3 answer.bitfield (create_udp ℕ)).pending_ack_map ≡ none)
unfolding sub16 read_u16
handle_udp_acked_example =
    handle_udp_acked init chat (create_udp ℕ) (create_udp ℕ) answer 3 new-size (omega arith)
      (omega arith) answered (inl refl)
