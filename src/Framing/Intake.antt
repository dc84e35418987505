-- ===== src/Framing/Intake.antt =====
-- A receive buffer that takes in bytes, is parsed, read and cleaned: the common part of
-- `TcpSession::ProcessRecv` and `UdpReceiver::ProcessRecv`.
use jam_client_prototype.Prelude.{
  ℕ, ◌≤◌, ◌≡◌, ◌∙◌, Bool, true, false, List, ◌++◌, arith, length, drop, length-take,
}
use jam_client_prototype.RecvBuffer.{
  clean_overlaps, Memcpy, RecvBuffer, data_size, free_size, clean, on_read, on_write, store,
}
use jam_client_prototype.RecvBuffer.Bounds.{
  IsValid, clean-IsValid, on_read-IsValid, on_write-IsValid, store-IsValid, length-unread,
}
use jam_client_prototype.RecvBuffer.Stream.{unread, unread-clean, unread-on_read, unread-on_write}
use jam_client_prototype.Framing.{is_parsing_packet, Parsed}
use jam_client_prototype.Framing.Split.{Splits}
use jam_client_prototype.Framing.Loop.{is_parsing_packet-Splits}

module _ ⦃mc : Memcpy⦄ (header : ℕ) (bytes : List ℕ) (b : RecvBuffer) where
  -- the buffer when `OnWrite` has accepted the bytes
  abbrev pub filled : RecvBuffer
  filled = (on_write (length bytes) (store bytes b)).1

  abbrev pub parsed : Parsed
  parsed = is_parsing_packet header (drop filled.read_pos filled.buffer) (data_size filled)

  -- whether `Clean` then copies overlapping ranges
  abbrev pub overlaps : Bool
  overlaps = clean_overlaps (on_read parsed.process_len filled).1

  -- the buffer that the next receive finds
  abbrev pub cleaned : RecvBuffer
  cleaned = clean (on_read parsed.process_len filled).1

-- None of the three tests fails, and, as `Clean` copies no overlapping ranges, the packets at the front of what was unread and the new bytes are
-- found, and the rest stays unread.
pub record Taken ⦃mc : Memcpy⦄ (header : ℕ) (bytes : List ℕ) (b : RecvBuffer) : Type 0 where
  pub accepted : (on_write (length bytes) (store bytes b)).0 ≡ true
  pub short : (parsed header bytes b).process_len ≤ data_size (filled header bytes b)
  pub read : (on_read (parsed header bytes b).process_len (filled header bytes b)).0 ≡ true
  pub splits :
      Splits header
        (unread b ++ bytes)
        (parsed header bytes b).packets
        (unread (cleaned header bytes b))
  pub valid : IsValid (cleaned header bytes b)

pub intake-Taken :
    ⦃mc : Memcpy⦄
    → (header : ℕ) (bytes : List ℕ) (b : RecvBuffer) → 2 ≤ header
    → IsValid b
    → length bytes ≤ free_size b
    → overlaps header bytes b ≡ false
    → Taken header bytes b
intake-Taken header bytes b h v fits apart =
    let full = filled header bytes b in
    let found = parsed header bytes b in
    let stored = unread-on_write bytes v fits in
    let valid = on_write-IsValid (length bytes) (store-IsValid bytes fits v) in
    let split =
      is_parsing_packet-Splits header (drop full.read_pos full.buffer) (data_size full) h (
        omega (
          arith,
          length-unread valid,
          length-take (data_size full) (drop full.read_pos full.buffer),
        )) in
    let taken = unread-on_read found.process_len valid split.1 in
    let kept : unread (cleaned header bytes b) ≡ drop found.process_len (unread full) =
      unread-clean (on_read-IsValid found.process_len valid) apart ∙ taken.1 in
    record {
      accepted = stored.0;
      short = split.1;
      read = taken.0;
      splits = rw (kept, ← stored.1) split.0;
      valid = clean-IsValid (on_read-IsValid found.process_len valid) apart;
    }
