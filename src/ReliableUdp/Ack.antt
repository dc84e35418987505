-- ===== src/ReliableUdp/Ack.antt =====
-- `HandleAck` and `GenerateAckBitfield`: which packets an acknowledgement covers.
use jam_client_prototype.Prelude.Maps.{erase}
use jam_client_prototype.Prelude.Bits.{
  test_bit, set_bit, test_bit-set_bit, test_bit-zero, set_bit-lt,
}
use jam_client_prototype.Sequence.{seq_mod, sub16, is_seq_greater}
pub use jam_client_prototype.Prelude.Maps.{find-erase, find-assign}
use jam_client_prototype.ReliableUdp.{
  ReliableUdpSession, recorded, ack_bits, find, erase_acked, handle_ack, generate_ack_bitfield,
}
use jam_client_prototype.Prelude.{
  ℕ, zero, suc, ◌+◌, ◌-◌, ◌^◌, ◌≤◌, ◌<◌, ◌≡◌, ◌∙◌, Bool, true, ◌&&◌, ◌||◌, not, none, List, arith,
  ltb, leb, ◌==◌, if◌then◌else◌,
}

-- An acknowledgement of `latest` with `field` covers `latest` itself and, for each set bit `j` of
-- the 32, the number `j + 1` behind it.
unfoldable pub covers : ℕ → ℕ → ℕ → Bool
covers latest field seq =
    let behind = sub16 latest seq in behind == 0 || (leb behind 32 && test_bit field (behind - 1))

-- `latest - i` is `j` exactly when `latest - j` is `i`.
sub16-flip :
    (latest i j : ℕ)
    → latest < seq_mod
    → i < seq_mod
    → j < seq_mod
    → (sub16 latest i == j) ≡ (i == sub16 latest j)
unfolding sub16
sub16-flip latest i j hl hi hj = ground arith

module _ {V : Type 0} where
  -- The rounds from `i` on erase the covered numbers at distance `i` to `i + n - 1`.
  find-erase_acked :
      (latest field n i j : ℕ) (m : List (ℕ × V))
      → latest < seq_mod
      → j < seq_mod
      → i + n ≤ 33
      → find j (erase_acked latest field n i m) ≡ (
          if leb i (sub16 latest j) && (ltb (sub16 latest j) (i + n) && covers latest field j)
          then none
          else find j m)
  unfolding erase_acked covers
  find-erase_acked latest field zero i j m hl hj h = ground arith
  find-erase_acked latest field (suc n) i j m hl hj h =
      let rest =
        find-erase_acked latest field n (suc i) j
          (if i == 0 || test_bit field (i - 1) then erase (sub16 latest i) m else m) hl hj
          (omega arith) in
      ground
        (arith, rest, find-erase (sub16 latest i) j m, sub16-flip latest i j hl (omega arith) hj)

module _ {Time : Type 0} where
  -- `HandleAck` removes exactly the covered packets, and changes nothing else.
  pub find-handle_ack :
      (latest field j : ℕ) (s : ReliableUdpSession Time)
      → latest < seq_mod
      → j < seq_mod
      → find j (handle_ack latest field s).pending_ack_map
        ≡ (if covers latest field j then none else find j s.pending_ack_map)
  unfolding handle_ack covers
  find-handle_ack latest field j s hl hj =
      find-erase_acked latest field 33 0 j s.pending_ack_map hl hj (omega arith) ∙ ground arith

-- The test of the loop, which always passes: the numbers behind are behind.
is_seq_greater-behind :
    (latest i : ℕ)
    → latest < seq_mod
    → 0 < i
    → i ≤ 32
    → is_seq_greater latest (sub16 latest i) ≡ true
unfolding is_seq_greater
is_seq_greater-behind latest i h lo hi = ground arith

test_bit-ack_bits :
    (history : List Bool) (latest n i field j : ℕ)
    → latest < seq_mod
    → 0 < i
    → i + n ≤ 33
    → test_bit (ack_bits history latest n i field) j ≡ (
        if leb i (j + 1) && (ltb (j + 1) (i + n) && recorded history (sub16 latest (j + 1)))
        then true
        else test_bit field j)
unfolding ack_bits
test_bit-ack_bits history latest zero i field j h lo hi = ground arith
test_bit-ack_bits history latest (suc n) i field j h lo hi =
    let next =
      if not (is_seq_greater latest (sub16 latest i))
      then field
      else if recorded history (sub16 latest i)
      then set_bit field (i - 1)
      else field in
    let rest = test_bit-ack_bits history latest n (suc i) next j h (omega arith) (omega arith) in
    rest
    ∙ ground
        (arith, is_seq_greater-behind latest i h lo (omega arith), test_bit-set_bit field (i - 1) j)

ack_bits-lt :
    (history : List Bool) (latest n i field : ℕ)
    → 0 < i
    → i + n ≤ 33
    → field < 2 ^ 32
    → ack_bits history latest n i field < 2 ^ 32
unfolding ack_bits
ack_bits-lt history latest zero i field lo hi f = f
ack_bits-lt history latest (suc n) i field lo hi f =
    ack_bits-lt history latest n (suc i) _ (omega arith) (omega arith)
      (ground (arith, set_bit-lt field (i - 1) 32))

module _ {Time : Type 0} where
  -- Bit `j` of the generated field says whether the number `j + 1` behind `latest` is in the
  -- history, for the 32 numbers behind, and the field is a `uint32`.
  pub test_bit-generate_ack_bitfield :
      (latest j : ℕ) (s : ReliableUdpSession Time)
      → latest < seq_mod
      → (test_bit (generate_ack_bitfield latest s) j
          ≡ (ltb j 32 && recorded s.receive_history (sub16 latest (j + 1))))
        × (generate_ack_bitfield latest s < 2 ^ 32)
  unfolding generate_ack_bitfield
  test_bit-generate_ack_bitfield latest j s h = (
    test_bit-ack_bits s.receive_history latest 32 1 0 j h (omega arith) (omega arith)
        ∙ ground (arith, test_bit-zero j),
    ack_bits-lt s.receive_history latest 32 1 0 (omega arith) (omega arith) (omega arith),
  )

  -- One side generates an acknowledgement for `latest` and the other handles it: of the sequence
  -- numbers that are pending there, exactly `latest` and those up to 32 behind it whose slot the
  -- first side has recorded go away.
  pub handle_ack-generate :
      (latest j : ℕ) (receiver sender : ReliableUdpSession Time)
      → latest < seq_mod
      → j < seq_mod
      → let behind = sub16 latest j in
        find j (handle_ack latest (generate_ack_bitfield latest receiver) sender).pending_ack_map
        ≡ (if behind == 0 || (leb behind 32 && recorded receiver.receive_history j)
            then none
            else find j sender.pending_ack_map)
  unfolding covers
  handle_ack-generate latest j receiver sender hl hj =
      let bit = (test_bit-generate_ack_bitfield latest (sub16 latest j - 1) receiver hl).0 in
      let back : 0 < sub16 latest j → sub16 latest (sub16 latest j - 1 + 1) ≡ j =
        λ p. unfold sub16 in omega arith in
      find-handle_ack latest (generate_ack_bitfield latest receiver) j sender hl hj
      ∙ ground (arith, bit, back)
