-- ===== src/Player/Motion/Tests.antt =====
-- An actor on whole numbers, packed, and received with pending inputs.
use jam_client_prototype.Prelude.{ℕ, ◌≡◌, refl, [], ◌∷◌, arith}
use jam_client_prototype.FloatOps.Whole.{whole_numbers}
use jam_client_prototype.Vector.Space.{Vec3}
use jam_client_prototype.Player.{Player, Input}
use jam_client_prototype.Player.Reconcile.{IsRun, apply_all}
use jam_client_prototype.Player.Motion.{
  Transform, Controls, RenderState, apply_input, smooth, reconcile_packed,
}
use jam_client_prototype.Player.Motion.Replay.{pack, arrived, reconcile_packed_lem}

abbrev triple : ℕ → ℕ → ℕ → Vec3 ℕ
triple a b c = record { x = a; y = b; z = c }

abbrev placed : Transform ℕ
placed = record {
  position = triple 7 130 9;
  velocity = triple 1 2 3;
  move_speed = 20;
  rotation = triple 1 2 0;
}

abbrev origin : Transform ℕ
origin = record {
  position = triple 0 0 0;
  velocity = triple 0 0 0;
  move_speed = 0;
  rotation = triple 0 0 5;
}

abbrev pressed : ℕ → ℕ → Input (Controls ℕ)
pressed n keys = record { sequence = n; keys = record { key_field = keys; yaw = 0; pitch = 0 } }

abbrev walker : Player (Controls ℕ) (Transform ℕ) (RenderState ℕ)
walker = record {
  player_id = 1;
  pending_inputs = pressed 4 1 ∷ (pressed 5 8 ∷ []);
  last_sequence_number = 6;
  pose = origin;
  view = record {
    render_position = triple 0 0 0;
    render_rotation = triple 0 0 0;
    render_velocity = triple 0 0 0;
  };
  sent = [];
}

reconcile_packed_lem_example :
    let (position, speed, rotation) = pack placed in
    let q = reconcile_packed position speed rotation 4 walker in
    let now = arrived placed origin in
    IsRun 5 q.last_sequence_number q.pending_inputs
    × (q.pose ≡ now)
    × (q.view ≡ apply_all apply_input now q.pending_inputs (smooth now walker.view))
reconcile_packed_lem_example =
    reconcile_packed_lem placed 4 4 walker (refl, (refl, refl)) (omega arith) (omega arith)
