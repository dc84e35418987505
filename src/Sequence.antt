-- ===== src/Sequence.antt =====
-- `ReliableUdpSession::IsSeqGreater` (ClientNetworkCore/Session.h): serial-number order on `uint16`.
use jam_client_prototype.Prelude.{
  ℕ, ◌+◌, ◌-◌, ◌%◌, ◌<◌, ◌≡◌, ◌↔◌, ◌⊎◌, Bool, true, false, ◌&&◌, arith, ltb,
}

abbrev pub seq_mod : ℕ
seq_mod = 65536

-- `uint16` subtraction and increment.
unfoldable pub sub16 : ℕ → ℕ → ℕ
sub16 a b = (a + seq_mod - b) % seq_mod

unfoldable pub inc16 : ℕ → ℕ
inc16 a = (a + 1) % seq_mod

-- `static_cast<int16>(a - b) > 0`: the difference is not zero, and its top bit is clear.
unfoldable pub is_seq_greater : ℕ → ℕ → Bool
unfolding sub16
is_seq_greater a b = let d = sub16 a b in ltb 0 d && ltb d 32768

-- For `uint16` numbers, `a` is greater than `b` exactly when it is 1 to 32767 steps ahead of it,
-- wrap-around included.
pub is_seq_greater_iff :
    (a b : ℕ)
    → a < seq_mod
    → b < seq_mod
    → (is_seq_greater a b ≡ true) ↔ ((k : ℕ) × (0 < k) × (k < 32768) × ((b + k) % seq_mod ≡ a))
unfolding is_seq_greater
is_seq_greater_iff a b ha hb = (
  λ h. ((a + seq_mod - b) % seq_mod, ground arith, ground arith, omega arith),
  λ w.
      let lo = w.1 in
      let hi = w.2 in
      let e = w.3 in
      let d : (a + seq_mod - b) % seq_mod ≡ w.0 = omega arith in ground (arith, lo, hi, d),
)

-- Of two sequence numbers at most one is greater; neither is exactly when they are equal or half
-- the range apart.
pub is_seq_greater_cases :
    (a b : ℕ)
    → a < seq_mod
    → b < seq_mod
    → ((is_seq_greater a b ≡ true) × (is_seq_greater b a ≡ false))
      ⊎ ((is_seq_greater a b ≡ false) × (is_seq_greater b a ≡ true))
      ⊎ ((is_seq_greater a b ≡ false)
          × (is_seq_greater b a ≡ false)
          × ((a ≡ b) ⊎ (sub16 a b ≡ 32768)))
unfolding is_seq_greater
is_seq_greater_cases a b ha hb = ground arith
