-- ===== src/ReliableUdp.antt =====
-- `ReliableUdpSession` of ClientNetworkCore/Session.h and Session.cpp: sequence numbers, the packets
-- that wait for an acknowledgement, the receive history and the acknowledgement bitfield.
-- A `SendBufferRef` is a number; `header_sequence` is the `sequence` field of the bytes it refers
-- to, which pending packets share. Times are of any type: `is_due now timestamp` stands for
-- `static_cast<float>(now - timestamp) >= _resendIntervalMs`. Each method is one step.
pub mod History
pub mod Ack
pub mod Resend
pub mod Resent
mod Tests
use jam_client_prototype.Prelude.{
  ℕ, zero, suc, ◌+◌, ◌-◌, ◌%◌, Bool, true, false, ◌||◌, not, none, some, List, [], ◌∷◌, ◌++◌, ltb,
  ◌==◌, if◌then◌else◌, get_or, set, replicate,
}
unfoldable pub use jam_client_prototype.Prelude.Maps.{assign, find, erase}
use jam_client_prototype.Prelude.Bits.{test_bit, set_bit}
use jam_client_prototype.Sequence.{seq_mod, sub16, inc16, is_seq_greater}

pub record PendingPacket (Time : Type 0) : Type 0 where
  pub buffer : ℕ
  pub sequence : ℕ
  pub timestamp : Time
  pub retry_count : ℕ

pub data Effect : Type 0 where
  transmits : ℕ → ℕ → Effect
  on_connected : Effect
  on_disconnected : Effect
  on_send : ℕ → Effect
  completes_handshake : Effect
  releases : Effect

pub record ReliableUdpSession (Time : Type 0) : Type 0 where
  pub connected : Bool
  pub pending_ack_map : List (ℕ × PendingPacket Time)
  pub receive_history : List Bool
  pub latest_seq : ℕ
  pub send_seq : ℕ
  pub header_sequence : ℕ → ℕ
  pub log : List Effect

abbrev pub history_size : ℕ
history_size = 1024

unfoldable pub create_udp : (Time : Type 0) → ReliableUdpSession Time
create_udp Time = record {
  connected = false;
  pending_ack_map = [];
  receive_history = replicate history_size false;
  latest_seq = 0;
  send_seq = 1;
  header_sequence = λ _. 0;
  log = [];
}

-- The slot of a sequence number in the receive history.
abbrev pub recorded : List Bool → ℕ → Bool
recorded history seq = get_or history (seq % history_size) false

-- One pass of `GenerateAckBitfield`; `continue` leaves the field as it is. The rounds are counted
-- down: `n` of them are left of 32, from `i` on.
unfoldable pub ack_bits : List Bool → ℕ → ℕ → ℕ → ℕ → ℕ
ack_bits history latest zero i field = field
ack_bits history latest (suc n) i field =
    let seq = sub16 latest i in
    ack_bits history latest n (suc i) (
      if not (is_seq_greater latest seq)
      then field
      else if recorded history seq
      then set_bit field (i - 1)
      else field)

-- `for (i = 0; i <= 32; ++i)` of `HandleAck`, on the map; `n` rounds are left, from `i` on.
unfoldable pub erase_acked {ℓ} : {V : Type ℓ} → ℕ → ℕ → ℕ → ℕ → List (ℕ × V) → List (ℕ × V)
unfolding erase
erase_acked latest field zero i m = m
erase_acked latest field (suc n) i m =
    erase_acked latest field n (suc i)
      (if i == 0 || test_bit field (i - 1) then erase (sub16 latest i) m else m)

module _ {Time : Type 0} where
  abbrev pub tell : Effect → ReliableUdpSession Time → ReliableUdpSession Time
  tell e s = record s { log = s.log ++ (e ∷ []) }

  -- `RegisterSend` with the service's socket open; what goes out carries the buffer's sequence.
  unfoldable pub send : Bool → ℕ → ReliableUdpSession Time → ReliableUdpSession Time
  send socket_open buffer s =
      if socket_open then tell (transmits buffer (s.header_sequence buffer)) s else s

  unfoldable pub send_reliable : Bool → ℕ → Time → ReliableUdpSession Time → ReliableUdpSession Time
  unfolding send inc16
  send_reliable socket_open buffer timestamp s =
      let seq = s.send_seq in
      let pkt : PendingPacket Time = record {
        buffer = buffer;
        sequence = seq;
        timestamp = timestamp;
        retry_count = 0;
      } in
      send socket_open buffer (record s {
        send_seq = inc16 seq;
        header_sequence = λ r. if r == buffer then seq else s.header_sequence r;
        pending_ack_map = assign seq pkt s.pending_ack_map;
      })

  unfoldable pub handle_ack : ℕ → ℕ → ReliableUdpSession Time → ReliableUdpSession Time
  unfolding erase_acked
  handle_ack latest field s = record s {
    pending_ack_map = erase_acked latest field 33 0 s.pending_ack_map;
  }

  unfoldable pub check_and_record_receive_history :
      ℕ → ReliableUdpSession Time → Bool × ReliableUdpSession Time
  check_and_record_receive_history seq s =
      if not (is_seq_greater seq (sub16 s.latest_seq 1024))
      then (false, s)
      else if recorded s.receive_history seq
      then (false, s)
      else (
        true,
        record s {
          receive_history = set s.receive_history (seq % history_size) true;
          latest_seq = if is_seq_greater seq s.latest_seq then seq else s.latest_seq;
        },
      )

  unfoldable pub generate_ack_bitfield : ℕ → ReliableUdpSession Time → ℕ
  unfolding ack_bits
  generate_ack_bitfield latest s = ack_bits s.receive_history latest 32 1 0

  unfoldable pub process_connect : ReliableUdpSession Time → ReliableUdpSession Time
  process_connect s = tell on_connected (tell completes_handshake (record s { connected = true }))

  unfoldable pub process_disconnect : ReliableUdpSession Time → ReliableUdpSession Time
  process_disconnect s = tell releases (tell on_disconnected (record s { connected = false }))

  unfoldable pub disconnect : ReliableUdpSession Time → ReliableUdpSession Time
  disconnect s = if s.connected then record s { connected = false } else s

  unfoldable pub process_send : ℕ → ReliableUdpSession Time → ReliableUdpSession Time
  unfolding disconnect
  process_send n s = if n == 0 then disconnect s else tell (on_send n) s

module _ {Time : Type 0} (is_due : Time → Time → Bool) where
  -- What the first loop of `Update` does to one pending packet.
  unfoldable pub refresh : Time → PendingPacket Time → PendingPacket Time
  refresh now p =
      if is_due now p.timestamp
      then record p { timestamp = now; retry_count = p.retry_count + 1 }
      else p

  unfoldable pub refresh_all : Time → List (ℕ × PendingPacket Time) → List (ℕ × PendingPacket Time)
  unfolding refresh
  refresh_all now [] = []
  refresh_all now ((seq, p) ∷ m) = (seq, refresh now p) ∷ refresh_all now m

  -- `resendList`, and whether some packet has more than five retries.
  unfoldable pub resend_list : Time → List (ℕ × PendingPacket Time) → List ℕ
  resend_list now [] = []
  resend_list now ((seq, p) ∷ m) =
      let rest = resend_list now m in if is_due now p.timestamp then seq ∷ rest else rest

  unfoldable pub gives_up : Time → List (ℕ × PendingPacket Time) → Bool
  unfolding refresh
  gives_up now [] = false
  gives_up now ((seq, p) ∷ m) = ltb 5 (refresh now p).retry_count || gives_up now m

  -- The second loop: a packet that is still pending goes through `SendReliable` again.
  unfoldable pub resend : Bool → Time → List ℕ → ReliableUdpSession Time → ReliableUdpSession Time
  unfolding send_reliable
  resend socket_open now [] s = s
  resend socket_open now (seq ∷ seqs) s =
      resend socket_open now seqs (elim (find seq s.pending_ack_map) [
        | none ↦ s
        | some p ↦ send_reliable socket_open p.buffer now s
      ])

  unfoldable pub update : Bool → Time → ReliableUdpSession Time → ReliableUdpSession Time
  unfolding refresh_all resend_list gives_up resend disconnect
  update socket_open now s =
      let due = resend_list now s.pending_ack_map in
      let refreshed = record s { pending_ack_map = refresh_all now s.pending_ack_map } in
      resend socket_open now due
        (if gives_up now s.pending_ack_map then disconnect refreshed else refreshed)
