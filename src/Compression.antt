-- ===== src/Compression.antt =====
-- DummyClient/TransformCompressor.cpp and the constants it takes from Values.h: positions, rotations
-- and velocities in 16-bit fields of one word.
pub mod Fields
use Prim.Native.Nat.{bit_and, bit_or}
use jam_client_prototype.Prelude.{ℕ, ◌+◌, ◌-◌, ◌*◌, ◌/◌, ◌%◌, ◌^◌, ltb, if◌then◌else◌}
use jam_client_prototype.FloatOps.{FloatOps, ◌⊕◌, ◌⊖◌, ◌⊗◌, ◌⊘◌}

-- `x << k` and `x >> k` on an unsigned word of `w` bits
unfoldable pub shift_left : ℕ → ℕ → ℕ → ℕ
shift_left w x k = x * 2 ^ k % 2 ^ w

unfoldable pub shift_right : ℕ → ℕ → ℕ
shift_right x k = x / 2 ^ k

-- `static_cast<uint64>` of an int16 extends the sign.
unfoldable pub sign_extend : ℕ → ℕ
sign_extend v = if ltb v (2 ^ 15) then v else v + (2 ^ 64 - 2 ^ 16)

module _ {ℓ} {F : Type ℓ} ⦃fl : FloatOps F⦄ where
  abbrev pub world_range_max : F
  world_range_max = fl.of_uint 2048

  abbrev pub world_range_min : F
  world_range_min = fl.neg (fl.of_uint 2048)

  -- The difference of two int32 constants
  abbrev pub world_range : F
  world_range = fl.of_uint 4096

  abbrev pub half_res : F
  half_res = (world_range ⊘ fl.of_uint 65535) ⊗ fl.literal 1 2

  unfoldable pub compress_position : F → ℕ
  compress_position value =
      let normalized = (value ⊖ world_range_min) ⊘ world_range in
      let clamped = fl.fmax (fl.of_uint 0) (fl.fmin (fl.of_uint 1) normalized) in
      fl.to_uint16 (clamped ⊗ fl.of_uint 65535)

  unfoldable pub expand_position : ℕ → F
  expand_position packed =
      let normalized = fl.of_uint16 packed ⊘ fl.of_uint 65535 in
      ((normalized ⊗ world_range) ⊕ world_range_min) ⊕ half_res

  unfoldable pub pack_position : F → F → F → ℕ
  pack_position px py pz =
      let px16 = compress_position px in
      let py16 = fl.to_uint16 (py ⊗ fl.of_uint 128) in
      let pz16 = compress_position pz in
      let packed = bit_or 0 (shift_left 64 (bit_and px16 0xffff) 48) in
      let packed = bit_or packed (shift_left 64 (bit_and py16 0xffff) 32) in
      bit_or packed (shift_left 64 (bit_and pz16 0xffff) 16)

  unfoldable pub unpack_position : ℕ → F × F × F
  unpack_position packed =
      let px16 = bit_and (shift_right packed 48) 0xffff in
      let py16 = bit_and (shift_right packed 32) 0xffff in
      let pz16 = bit_and (shift_right packed 16) 0xffff in
      (expand_position px16, fl.of_int16 py16 ⊘ fl.of_uint 128, expand_position pz16)

  unfoldable pub pack_rotation : F → F → ℕ
  pack_rotation yaw pitch =
      let two_pi = fl.of_uint 2 ⊗ fl.pi in
      let yaw16 = fl.to_uint16 (((yaw ⊕ fl.pi) ⊘ two_pi) ⊗ fl.of_uint 65535) in
      let pitch16 = fl.to_uint16 (((pitch ⊕ (fl.pi ⊘ fl.of_uint 2)) ⊘ fl.pi) ⊗ fl.of_uint 65535) in
      let packed = bit_or 0 (shift_left 32 yaw16 16) in bit_or packed pitch16

  unfoldable pub unpack_rotation : ℕ → F × F
  unpack_rotation packed =
      let yaw16 = bit_and (shift_right packed 16) 0xffff in
      let pitch16 = bit_and packed 0xffff in
      (
        ((fl.of_uint16 yaw16 ⊘ fl.of_uint 65535) ⊗ (fl.of_uint 2 ⊗ fl.pi)) ⊖ fl.pi,
        ((fl.of_uint16 pitch16 ⊘ fl.of_uint 65535) ⊗ fl.pi) ⊖ (fl.pi ⊘ fl.of_uint 2),
      )

  unfoldable pub pack_velocity_and_speed : F → F → F → F → ℕ
  pack_velocity_and_speed vx vy vz move_speed =
      let vx16 = fl.to_int16 (vx ⊗ fl.of_uint 100) in
      let vy16 = fl.to_int16 (vy ⊗ fl.of_uint 100) in
      let vz16 = fl.to_int16 (vz ⊗ fl.of_uint 100) in
      let speed16 = fl.to_int16 (move_speed ⊗ fl.of_uint 100) in
      let packed = bit_or 0 (shift_left 64 (bit_and (sign_extend vx16) 0xffff) 48) in
      let packed = bit_or packed (shift_left 64 (bit_and (sign_extend vy16) 0xffff) 32) in
      let packed = bit_or packed (shift_left 64 (bit_and (sign_extend vz16) 0xffff) 16) in
      bit_or packed (bit_and (sign_extend speed16) 0xffff)

  unfoldable pub unpack_velocity_and_speed : ℕ → F × F × F × F
  unpack_velocity_and_speed packed =
      let vx16 = bit_and (shift_right packed 48) 0xffff in
      let vy16 = bit_and (shift_right packed 32) 0xffff in
      let vz16 = bit_and (shift_right packed 16) 0xffff in
      let speed16 = bit_and packed 0xffff in
      let hundred = fl.of_uint 100 in
      (
        fl.of_int16 vx16 ⊘ hundred,
        fl.of_int16 vy16 ⊘ hundred,
        fl.of_int16 vz16 ⊘ hundred,
        fl.of_int16 speed16 ⊘ hundred,
      )
