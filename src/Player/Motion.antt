-- ===== src/Player/Motion.antt =====
-- The floating-point steps of DummyClient/Player.cpp on the drawn state, `Actor::SetTransform` of
-- Actor.cpp, and the interpolations of Utils.h; with them `Reconcile` as it is called, on the packed
-- words of the server.
pub mod Replay
mod Tests
use jam_client_prototype.Prelude.{ℕ, ◌||◌, if◌then◌else◌}
use jam_client_prototype.Prelude.Bits.{test_bit}
use jam_client_prototype.FloatOps.{FloatOps, ◌⊕◌, ◌⊖◌, ◌⊗◌, ◌⊘◌}
use jam_client_prototype.Vector.Space.{
  Vec3, add, sub, scale, add_assign, vec_length, length_squared, normalize,
}
use jam_client_prototype.Compression.{
  compress_position, expand_position, unpack_position, unpack_velocity_and_speed, unpack_rotation,
}
use jam_client_prototype.Player.{Player, Input, reconcile, update_player}

-- What `SetTransform` writes: the members of an `Actor` that the packed words carry.
pub record Transform (F : Type 0) : Type 0 where
  pub position : Vec3 F
  pub velocity : Vec3 F
  pub move_speed : F
  pub rotation : Vec3 F

-- `_renderPosition`, `_renderRotation` and `_renderVelocity`
pub record RenderState (F : Type 0) : Type 0 where
  pub render_position : Vec3 F
  pub render_rotation : Vec3 F
  pub render_velocity : Vec3 F

pub record Controls (F : Type 0) : Type 0 where
  pub key_field : ℕ
  pub yaw : F
  pub pitch : F

module _ {F : Type 0} ⦃fl : FloatOps F⦄ where
  unfoldable pub lerp : F → F → F → F
  lerp a b t = (a ⊗ (fl.of_uint 1 ⊖ t)) ⊕ (b ⊗ t)

  unfoldable pub lerp_vec : Vec3 F → Vec3 F → F → Vec3 F
  lerp_vec a b t = add (scale a (fl.of_uint 1 ⊖ t)) (scale b t)

  unfoldable pub lerp_angle : F → F → F → F
  lerp_angle a b t =
      let diff = fl.fmod ((b ⊖ a) ⊕ (fl.pi ⊗ fl.of_uint 3)) (fl.pi ⊗ fl.of_uint 2) ⊖ fl.pi in
      a ⊕ (diff ⊗ t)

  -- `SetTransform`, and the head of `Reconcile`: the roll is not sent.
  unfoldable pub set_transform : ℕ → ℕ → ℕ → Transform F → Transform F
  set_transform position velocity_speed rotation a =
      let (px, py, pz) = unpack_position position in
      let (vx, vy, vz, speed) = unpack_velocity_and_speed velocity_speed in
      let (yaw, pitch) = unpack_rotation rotation in
      record {
        position = record { x = px; y = py; z = pz };
        velocity = record { x = vx; y = vy; z = vz };
        move_speed = speed;
        rotation = record { x = pitch; y = yaw; z = a.rotation.z };
      }

  unfoldable pub process_key_field : Transform F → ℕ → RenderState F → RenderState F
  process_key_field a key_field r =
      let dz = if test_bit key_field 0 then fl.of_uint 1 else fl.of_uint 0 in
      let dz = if test_bit key_field 1 then fl.neg (fl.of_uint 1) else dz in
      let dx = if test_bit key_field 2 then fl.of_uint 1 else fl.of_uint 0 in
      let dx = if test_bit key_field 3 then fl.neg (fl.of_uint 1) else dx in
      let dir : Vec3 F = record { x = dx; y = fl.of_uint 0; z = dz } in
      let dir = if fl.less (fl.of_uint 0) (length_squared dir) then normalize dir else dir in
      let angle = fl.neg a.rotation.y in
      let rotated_x = (dir.x ⊗ fl.cos angle) ⊖ (dir.z ⊗ fl.sin angle) in
      let rotated_z = (dir.x ⊗ fl.sin angle) ⊕ (dir.z ⊗ fl.cos angle) in
      record r {
        render_velocity = record {
          x = rotated_x ⊗ a.move_speed;
          y = r.render_velocity.y;
          z = rotated_z ⊗ a.move_speed;
        };
      }

  -- `ApplyInput`: one tick of 1/30 s
  unfoldable pub apply_input : Transform F → Input (Controls F) → RenderState F → RenderState F
  apply_input a input r =
      let controls = input.keys in
      let r = process_key_field a controls.key_field r in
      record r {
        render_position = add_assign r.render_position (scale r.render_velocity (fl.literal 1 30));
      }

  -- `Reconcile` on the drawn position: a jump from afar, else half of the way.
  unfoldable pub smooth_position : Transform F → Vec3 F → Vec3 F
  smooth_position a drawn =
      if fl.less (fl.literal 7 10) (vec_length (sub a.position drawn))
      then a.position
      else (let compressed : Vec3 F = record {
        x = expand_position (compress_position a.position.x);
        y = expand_position (compress_position a.position.y);
        z = expand_position (compress_position a.position.z);
      } in
          lerp_vec (add_assign drawn (sub a.position compressed)) a.position (fl.literal 1 2))

  -- and on the drawn rotation, in radians
  unfoldable pub smooth_rotation : Transform F → Vec3 F → Vec3 F
  smooth_rotation a drawn =
      let one = fl.of_uint 1 in
      if fl.less one (fl.fabs (a.rotation.y ⊖ drawn.y))
        || fl.less one (fl.fabs (a.rotation.x ⊖ drawn.x))
      then a.rotation
      else record drawn {
        y = lerp_angle drawn.y a.rotation.y (fl.literal 1 2);
        x = lerp drawn.x a.rotation.x (fl.literal 1 2);
      }

  unfoldable pub smooth : Transform F → RenderState F → RenderState F
  smooth a r = record r {
    render_position = smooth_position a r.render_position;
    render_rotation = smooth_rotation a r.render_rotation;
  }

  unfoldable pub reconcile_packed :
      ℕ
      → ℕ
      → ℕ
      → ℕ
      → Player (Controls F) (Transform F) (RenderState F)
      → Player (Controls F) (Transform F) (RenderState F)
  reconcile_packed position velocity_speed rotation ack p =
      reconcile apply_input smooth (set_transform position velocity_speed rotation p.pose) ack p

  unfoldable pub player_direction : RenderState F → Vec3 F
  player_direction r =
      let pitch = r.render_rotation.x in
      let yaw = r.render_rotation.y in
      record { x = fl.cos pitch ⊗ fl.sin yaw; y = fl.sin pitch; z = fl.cos pitch ⊗ fl.cos yaw }
