-- ===== src/Compression/Fields.antt =====
-- The packed words of DummyClient/TransformCompressor.cpp as numbers of four digits of 16 bits.
use Prim.Native.Nat.{bit_and, bit_or}
use jam_client_prototype.Prelude.{ℕ, ◌+◌, ◌*◌, ◌/◌, ◌%◌, ◌^◌, ◌<◌, ◌≡◌, refl, ap, ◌∙◌, arith}
use jam_client_prototype.Prelude.Words.{bit_and_mask, bit_or_fields, zero-bit_or}
use jam_client_prototype.FloatOps.{FloatOps, ◌⊗◌, ◌⊘◌, ◌⊕◌, ◌⊖◌}
use jam_client_prototype.Compression.{
  shift_left, shift_right, sign_extend, compress_position, expand_position, pack_position,
  unpack_position, pack_rotation, unpack_rotation, pack_velocity_and_speed,
  unpack_velocity_and_speed,
}

-- The word of four 16-bit fields, the first the highest.
abbrev word64 : ℕ → ℕ → ℕ → ℕ → ℕ
word64 a b c d = ((a * 2 ^ 16 + b) * 2 ^ 16 + c) * 2 ^ 16 + d

low16 : (x : ℕ) → bit_and x 0xffff ≡ x % 2 ^ 16
low16 x = bit_and_mask 16 x

mask16 : (x : ℕ) → x < 2 ^ 16 → bit_and x 0xffff ≡ x
mask16 x h = low16 x ∙ omega arith

mask-sign_extend : (x : ℕ) → x < 2 ^ 16 → bit_and (sign_extend x) 0xffff ≡ x
unfolding sign_extend
mask-sign_extend x h = low16 (sign_extend x) ∙ ground arith

join3 :
    (a b c : ℕ)
    → a < 2 ^ 16
    → b < 2 ^ 16
    → c < 2 ^ 16
    → bit_or (bit_or (bit_or 0 (shift_left 64 a 48)) (shift_left 64 b 32)) (shift_left 64 c 16)
      ≡ word64 a b c 0
unfolding shift_left
join3 a b c ha hb hc =
    let sa : a * 2 ^ 48 % 2 ^ 64 ≡ a * 2 ^ 48 = omega arith in
    let sb : b * 2 ^ 32 % 2 ^ 64 ≡ b * 2 ^ 32 = omega arith in
    let sc : c * 2 ^ 16 % 2 ^ 64 ≡ c * 2 ^ 16 = omega arith in
    let ab : bit_or (a * 2 ^ 48) (b * 2 ^ 32) ≡ (a * 2 ^ 16 + b) * 2 ^ 32 =
      bit_or_fields 48 a (b * 2 ^ 32) (omega arith) ∙ omega arith in
    rw (sa, sb, sc, zero-bit_or (a * 2 ^ 48), ab)
      (bit_or_fields 32 (a * 2 ^ 16 + b) (c * 2 ^ 16) (omega arith) ∙ omega arith)

join_low : (a b c d : ℕ) → d < 2 ^ 16 → bit_or (word64 a b c 0) d ≡ word64 a b c d
join_low a b c d h =
    let high : word64 a b c 0 ≡ ((a * 2 ^ 16 + b) * 2 ^ 16 + c) * 2 ^ 16 = omega arith in
    ap (λ t. bit_or t d) high ∙ bit_or_fields 16 ((a * 2 ^ 16 + b) * 2 ^ 16 + c) d h

abbrev Fields64 : (a b c d : ℕ) → Type 0
Fields64 a b c d =
    (bit_and (shift_right (word64 a b c d) 48) 0xffff ≡ a)
    × (bit_and (shift_right (word64 a b c d) 32) 0xffff ≡ b)
    × (bit_and (shift_right (word64 a b c d) 16) 0xffff ≡ c)
    × (bit_and (word64 a b c d) 0xffff ≡ d)

split_lem : (a b c d : ℕ) → a < 2 ^ 16 → b < 2 ^ 16 → c < 2 ^ 16 → d < 2 ^ 16 → Fields64 a b c d
unfolding shift_right
split_lem a b c d ha hb hc hd = (
  low16 (word64 a b c d / 2 ^ 48) ∙ omega arith,
  low16 (word64 a b c d / 2 ^ 32) ∙ omega arith,
  low16 (word64 a b c d / 2 ^ 16) ∙ omega arith,
  low16 (word64 a b c d) ∙ omega arith,
)

module _ {ℓ} {F : Type ℓ} ⦃fl : FloatOps F⦄ where
  abbrev yaw_field : F → ℕ
  yaw_field yaw = fl.to_uint16 (((yaw ⊕ fl.pi) ⊘ (fl.of_uint 2 ⊗ fl.pi)) ⊗ fl.of_uint 65535)

  abbrev pitch_field : F → ℕ
  pitch_field pitch = fl.to_uint16 (((pitch ⊕ (fl.pi ⊘ fl.of_uint 2)) ⊘ fl.pi) ⊗ fl.of_uint 65535)

  -- What each number of a transform comes back as, which depends on this number alone.
  abbrev pub sent_xz : F → F
  sent_xz v = expand_position (compress_position v)

  abbrev pub sent_height : F → F
  sent_height v = fl.of_int16 (fl.to_uint16 (v ⊗ fl.of_uint 128)) ⊘ fl.of_uint 128

  abbrev pub sent_yaw : F → F
  sent_yaw v = ((fl.of_uint16 (yaw_field v) ⊘ fl.of_uint 65535) ⊗ (fl.of_uint 2 ⊗ fl.pi)) ⊖ fl.pi

  abbrev pub sent_pitch : F → F
  sent_pitch v =
      ((fl.of_uint16 (pitch_field v) ⊘ fl.of_uint 65535) ⊗ fl.pi) ⊖ (fl.pi ⊘ fl.of_uint 2)

  abbrev pub sent_speed : F → F
  sent_speed v = fl.of_int16 (fl.to_int16 (v ⊗ fl.of_uint 100)) ⊘ fl.of_uint 100

  compress_position_lt : (x : F) → compress_position x < 2 ^ 16
  unfolding compress_position
  compress_position_lt x = fl.to_uint16_lt _

  -- Unpacking a packed position gives x and z as the compression of each gives them back, and y as
  -- its field read with a sign: no field touches another.
  pub unpack_position-pack_position :
      (px py pz : F)
      → unpack_position (pack_position px py pz) ≡ (sent_xz px, sent_height py, sent_xz pz)
  unfolding pack_position unpack_position
  unpack_position-pack_position px py pz =
      let a = compress_position px in
      let b = fl.to_uint16 (py ⊗ fl.of_uint 128) in
      let c = compress_position pz in
      let ha : a < 2 ^ 16 = compress_position_lt px in
      let hb : b < 2 ^ 16 = fl.to_uint16_lt (py ⊗ fl.of_uint 128) in
      let hc : c < 2 ^ 16 = compress_position_lt pz in
      let word : pack_position px py pz ≡ word64 a b c 0 =
        rw (pack_position, mask16 a ha, mask16 b hb, mask16 c hc) (join3 a b c ha hb hc) in
      let (sa, sb, sc, sd) = split_lem a b c 0 ha hb hc (omega arith) in
      rw (word, unpack_position, sa, sb, sc) refl

  -- Yaw and pitch are independent: each comes back as its 16 bits read as an angle.
  pub unpack_rotation-pack_rotation :
      (yaw pitch : F) → unpack_rotation (pack_rotation yaw pitch) ≡ (sent_yaw yaw, sent_pitch pitch)
  unfolding pack_rotation unpack_rotation shift_left shift_right
  unpack_rotation-pack_rotation yaw pitch =
      let a = yaw_field yaw in
      let b = pitch_field pitch in
      let ha : a < 2 ^ 16 = fl.to_uint16_lt _ in
      let hb : b < 2 ^ 16 = fl.to_uint16_lt _ in
      let word : pack_rotation yaw pitch ≡ a * 2 ^ 16 + b =
        let fits : a * 2 ^ 16 % 2 ^ 32 ≡ a * 2 ^ 16 = omega arith in
        rw (pack_rotation, fits, zero-bit_or (a * 2 ^ 16)) (bit_or_fields 16 a b hb) in
      let high : bit_and ((a * 2 ^ 16 + b) / 2 ^ 16) 0xffff ≡ a =
        low16 ((a * 2 ^ 16 + b) / 2 ^ 16) ∙ omega arith in
      let low : bit_and (a * 2 ^ 16 + b) 0xffff ≡ b = low16 (a * 2 ^ 16 + b) ∙ omega arith in
      rw (word, unpack_rotation, high, low) refl

  -- The velocity and the speed come back each as the hundredths it was packed in.
  pub unpack_velocity_and_speed-pack_velocity_and_speed :
      (vx vy vz speed : F)
      → unpack_velocity_and_speed (pack_velocity_and_speed vx vy vz speed)
        ≡ (sent_speed vx, sent_speed vy, sent_speed vz, sent_speed speed)
  unfolding pack_velocity_and_speed unpack_velocity_and_speed
  unpack_velocity_and_speed-pack_velocity_and_speed vx vy vz speed =
      let a = fl.to_int16 (vx ⊗ fl.of_uint 100) in
      let b = fl.to_int16 (vy ⊗ fl.of_uint 100) in
      let c = fl.to_int16 (vz ⊗ fl.of_uint 100) in
      let d = fl.to_int16 (speed ⊗ fl.of_uint 100) in
      let ha : a < 2 ^ 16 = fl.to_int16_lt _ in
      let hb : b < 2 ^ 16 = fl.to_int16_lt _ in
      let hc : c < 2 ^ 16 = fl.to_int16_lt _ in
      let hd : d < 2 ^ 16 = fl.to_int16_lt _ in
      let word : pack_velocity_and_speed vx vy vz speed ≡ word64 a b c d =
        rw
          (
            pack_velocity_and_speed,
            mask-sign_extend a ha,
            mask-sign_extend b hb,
            mask-sign_extend c hc,
            mask-sign_extend d hd,
            join3 a b c ha hb hc,
          )
          (join_low a b c d hd) in
      let (sa, sb, sc, sd) = split_lem a b c d ha hb hc hd in
      rw (word, unpack_velocity_and_speed, sa, sb, sc, sd) refl
