-- ===== src/ReliableUdp/Tests.antt =====
-- Sequence numbers and `ReliableUdpSession`: two sessions on which the theorems apply.
use jam_client_prototype.Prelude.{
  ℕ, ◌+◌, ◌-◌, ◌%◌, ◌≤◌, ◌≡◌, refl, ◌∙◌, ◌↔◌, Bool, true, false, ◌&&◌, ◌||◌, none, some, [], ◌∷◌,
  arith, leb, ◌==◌, if◌then◌else◌, length, set, replicate, length-set, length-replicate,
}
use jam_client_prototype.Sequence.{sub16, is_seq_greater}
use jam_client_prototype.ReliableUdp.{
  ReliableUdpSession, PendingPacket, find, history_size, create_udp, recorded, handle_ack,
  check_and_record_receive_history, generate_ack_bitfield, resend_list, update, refresh,
}
use jam_client_prototype.ReliableUdp.History.{accepts, check_and_record_lem, accepts_bounded}
use jam_client_prototype.ReliableUdp.Ack.{handle_ack-generate}
use jam_client_prototype.ReliableUdp.Resend.{FreeAhead}
use jam_client_prototype.ReliableUdp.Resent.{fresh, update-pending}

-- Times are numbers here, and a packet is due after 100 ticks.
abbrev is_due : ℕ → ℕ → Bool
is_due now sent = leb 100 (now - sent)

abbrev waiting : ℕ → ℕ → PendingPacket ℕ
waiting buffer seq = record { buffer = buffer; sequence = seq; timestamp = 0; retry_count = 0 }

-- The numbers 1, 2 and 3 are pending, and 4 comes next.
abbrev sender : ReliableUdpSession ℕ
sender = record (create_udp ℕ) {
  connected = true;
  pending_ack_map = (1, waiting 11 1) ∷ (2, waiting 12 2) ∷ (3, waiting 13 3) ∷ [];
  send_seq = 4;
}

-- It has recorded 1.
abbrev receiver : ReliableUdpSession ℕ
receiver = record (create_udp ℕ) {
  connected = true;
  receive_history = set (replicate 1024 false) 1 true;
  latest_seq = 1;
}

receiver-size : length receiver.receive_history ≡ 1024
receiver-size =
    length-set (replicate 1024 false) 1 true ∙ length-replicate {0} {A = Bool} 1024 false

handle_ack-generate_example :
    find 1 (handle_ack 2 (generate_ack_bitfield 2 receiver) sender).pending_ack_map ≡ (
      if sub16 2 1 == 0 || (leb (sub16 2 1) 32 && recorded receiver.receive_history 1)
      then none
      else find 1 sender.pending_ack_map)
handle_ack-generate_example = handle_ack-generate 2 1 receiver sender (omega arith) (omega arith)

check_and_record_lem_example :
    (((check_and_record_receive_history 2 receiver).0 ≡ true)
      ↔ ((is_seq_greater 2 (sub16 1 1024) ≡ true) × (recorded receiver.receive_history 2 ≡ false)))
    × (recorded (check_and_record_receive_history 2 receiver).1.receive_history 1 ≡ (
        if 2 % history_size == 1 % history_size
        then (check_and_record_receive_history 2 receiver).0 || recorded receiver.receive_history 1
        else recorded receiver.receive_history 1))
    × (length (check_and_record_receive_history 2 receiver).1.receive_history ≡ history_size)
    × ((check_and_record_receive_history 2 receiver).1.latest_seq
        ≡ (if (check_and_record_receive_history 2 receiver).0 && is_seq_greater 2 1 then 2 else 1))
check_and_record_lem_example = check_and_record_lem 2 1 receiver receiver-size

fresh-size : length (create_udp ℕ).receive_history ≡ 1024
unfolding create_udp
fresh-size = length-replicate {0} {A = Bool} 1024 false

fresh_accepts : (check_and_record_receive_history 1 (create_udp ℕ)).0 ≡ true
unfolding check_and_record_receive_history create_udp is_seq_greater
fresh_accepts = refl

accepts_bounded_example : accepts (2 ∷ 3 ∷ 4 ∷ []) receiver ≤ history_size
accepts_bounded_example = accepts_bounded (2 ∷ 3 ∷ 4 ∷ []) receiver receiver-size

sender-FreeAhead : FreeAhead 3 sender
unfolding find
sender-FreeAhead i h = ground arith

three_due : resend_list is_due 200 sender.pending_ack_map ≡ 1 ∷ 2 ∷ 3 ∷ []
unfolding resend_list
three_due = refl

update-pending_example :
    let after = (update is_due true 200 sender).pending_ack_map in
    (find 2 after ≡ some (refresh is_due 200 (waiting 12 2)))
    × (find 5 after ≡ some (fresh 12 5 200))
    × (length after
        ≡ length sender.pending_ack_map + length (resend_list is_due 200 sender.pending_ack_map))
unfolding resend_list find
update-pending_example =
    update-pending is_due true 200 1 sender {p = waiting 12 2} (omega arith) (omega arith)
      sender-FreeAhead (omega arith) refl
