-- ===== src/Player/Motion/Replay.antt =====
-- `Reconcile` of DummyClient/Player.cpp on a transform that was packed as TransformCompressor.cpp
-- packs it.
use jam_client_prototype.Prelude.{ℕ, ◌+◌, ◌≤◌, ◌<◌, ◌≡◌, refl, ap, ◌∙◌}
use jam_client_prototype.FloatOps.{FloatOps}
use jam_client_prototype.Compression.{pack_position, pack_velocity_and_speed, pack_rotation}
use jam_client_prototype.Compression.Fields.{
  sent_xz, sent_height, sent_yaw, sent_pitch, sent_speed, unpack_position-pack_position,
  unpack_rotation-pack_rotation, unpack_velocity_and_speed-pack_velocity_and_speed,
}
use jam_client_prototype.Player.{unacknowledged, reconcile, Player}
use jam_client_prototype.Player.Reconcile.{IsRun, apply_all, reconcile_lem}
use jam_client_prototype.Player.Motion.{
  Transform, Controls, RenderState, set_transform, apply_input, smooth, reconcile_packed,
}

module _ {F : Type 0} ⦃fl : FloatOps F⦄ where
  -- The words in which a server sends a transform
  abbrev pub pack : Transform F → ℕ × ℕ × ℕ
  pack t = (
    pack_position t.position.x t.position.y t.position.z,
    pack_velocity_and_speed t.velocity.x t.velocity.y t.velocity.z t.move_speed,
    pack_rotation t.rotation.y t.rotation.x,
  )

  -- A transform as it arrives: each number by itself, and the roll of the old one.
  abbrev pub arrived : Transform F → Transform F → Transform F
  arrived t old = record {
    position = record {
      x = sent_xz t.position.x;
      y = sent_height t.position.y;
      z = sent_xz t.position.z;
    };
    velocity = record {
      x = sent_speed t.velocity.x;
      y = sent_speed t.velocity.y;
      z = sent_speed t.velocity.z;
    };
    move_speed = sent_speed t.move_speed;
    rotation = record {
      x = sent_pitch t.rotation.x;
      y = sent_yaw t.rotation.y;
      z = old.rotation.z;
    };
  }

  -- An actor that is set from the three words packed of a transform has this transform, each number
  -- rounded to its 16 bits by itself, and keeps its roll.
  pub set_transform-pack :
      (t old : Transform F) → let (p, v, r) = pack t in set_transform p v r old ≡ arrived t old
  unfolding set_transform
  set_transform-pack t old =
      rw
        (
          set_transform,
          unpack_position-pack_position t.position.x t.position.y t.position.z,
          unpack_velocity_and_speed-pack_velocity_and_speed t.velocity.x t.velocity.y t.velocity.z
              t.move_speed,
          unpack_rotation-pack_rotation t.rotation.y t.rotation.x,
        )
        refl

  -- When the packed state of the server arrives and acknowledges a pending input or the one before
  -- them: the player takes the server's transform, the inputs behind the acknowledged one stay, and
  -- the drawn state is the smoothed one with exactly these inputs applied under the new transform.
  pub reconcile_packed_lem :
      (t : Transform F) (ack k : ℕ) (p : Player (Controls F) (Transform F) (RenderState F))
      → IsRun k p.last_sequence_number p.pending_inputs
      → k ≤ ack + 1
      → ack < p.last_sequence_number
      → let (position, speed, rotation) = pack t in
        let q = reconcile_packed position speed rotation ack p in
        let now = arrived t p.pose in
        IsRun (ack + 1) q.last_sequence_number q.pending_inputs
        × (q.pose ≡ now)
        × (q.view ≡ apply_all apply_input now q.pending_inputs (smooth now p.view))
  unfolding reconcile_packed reconcile
  reconcile_packed_lem t ack k p h l u =
      let (position, speed, rotation) = pack t in
      let now = set_transform position speed rotation p.pose in
      let arrives = set_transform-pack t p.pose in
      let (run, drawn) = reconcile_lem apply_input smooth now ack k p h l u in
      (
        run,
        arrives,
        drawn
            ∙ ap
                (λ a.
                  apply_all apply_input a (unacknowledged ack p.pending_inputs) (smooth a p.view))
                arrives,
      )
