-- ===== src/MovementInterpolator/Drawn.antt =====
-- What DummyClient/MovementInterpolator.cpp draws between two snapshots and ahead of the last one. `D`
-- is `double` and `F` is `float`.
use jam_client_prototype.Prelude.{◌≡◌, inl, inr, Bool, false, List, [], if◌then◌else◌, Bool-cases}
use jam_client_prototype.FloatOps.{FloatOps, ◌⊕◌, ◌⊖◌, ◌⊗◌, ◌⊘◌}
use jam_client_prototype.Vector.Space.{Vec3, add, scale}
use jam_client_prototype.Player.Motion.{lerp_vec}
use jam_client_prototype.MovementInterpolator.{
  Snapshot, Rendered, interpolated, extrapolated, unchanged, add_snapshot, process,
}

pub record Motion (F : Type 0) : Type 0 where
  pub position : Vec3 F
  pub velocity : Vec3 F
  pub rotation : Vec3 F

pub record MovementInterpolator (D F : Type 0) : Type 0 where
  pub snapshot_buffer : List (Snapshot D (Motion F))
  pub interpolation_delay : D
  pub extrapolation_limit : D
  pub render_position : Vec3 F
  pub render_rotation : Vec3 F

module _ {D F : Type 0} ⦃dl : FloatOps D⦄ ⦃fl : FloatOps F⦄ where
  unfoldable pub create_interpolator : MovementInterpolator D F
  create_interpolator =
      let nought : Vec3 F = record { x = fl.of_uint 0; y = fl.of_uint 0; z = fl.of_uint 0 } in
      record {
        snapshot_buffer = [];
        interpolation_delay = dl.literal 5 100;
        extrapolation_limit = dl.literal 25 100;
        render_position = nought;
        render_rotation = nought;
      }

  -- `AddSnapshot` on the buffer, which keeps what is at most half a second older.
  unfoldable pub record_snapshot :
      Snapshot D (Motion F) → MovementInterpolator D F → MovementInterpolator D F
  record_snapshot snap m =
      let kept = add_snapshot dl.less (λ t. t ⊖ dl.literal 1 2) snap m.snapshot_buffer in
      record m { snapshot_buffer = kept }

  -- `to_float` is the conversion of a `double`.
  unfoldable pub draw :
      (D → F) → D → D → Rendered D (Motion F) → MovementInterpolator D F → MovementInterpolator D F
  draw to_float now render_time (interpolated prev next) m =
      let t = to_float ((render_time ⊖ prev.timestamp) ⊘ (next.timestamp ⊖ prev.timestamp)) in
      record m {
        render_position = lerp_vec prev.state.position next.state.position t;
        render_rotation = lerp_vec prev.state.rotation next.state.rotation t;
      }
  draw to_float now render_time (extrapolated last) m =
      let delta = now ⊖ last.timestamp in
      record m {
        render_position = add last.state.position (scale last.state.velocity (to_float delta));
      }
  draw to_float now render_time unchanged m = m

  -- `Process`, when the client's time is `now`
  unfoldable pub process_motion : (D → F) → D → MovementInterpolator D F → MovementInterpolator D F
  process_motion to_float now m =
      let render_time = now ⊖ m.interpolation_delay in
      let beyond : D → D → Bool = λ now t. dl.less m.extrapolation_limit (now ⊖ t) in
      draw to_float now render_time (process dl.less beyond now render_time m.snapshot_buffer) m

module _ {D : Type 0} ⦃dl : FloatOps D⦄ where
  abbrev pub min_interpolation_delay : D
  min_interpolation_delay = dl.literal 4 100

  abbrev pub max_interpolation_delay : D
  max_interpolation_delay = dl.literal 8 100

  -- `std::clamp`
  unfoldable pub clamp : D → D → D → D
  clamp v lo hi = if dl.less v lo then lo else if dl.less hi v then hi else v

  clamp_within :
      (v lo hi : D)
      → dl.less lo lo ≡ false
      → dl.less hi hi ≡ false
      → dl.less hi lo ≡ false
      → (dl.less (clamp v lo hi) lo ≡ false) × (dl.less hi (clamp v lo hi) ≡ false)
  unfolding clamp
  clamp_within v lo hi same same' ordered = elim (Bool-cases (dl.less v lo)) [
    | inl e ↦ rw e (same, ordered)
    | inr e ↦ elim (Bool-cases (dl.less hi v)) [
      | inl e' ↦ rw (e, e') (ordered, same')
      | inr e' ↦ rw (e, e') (e, e')
    ]
  ]

module _ {D F : Type 0} ⦃dl : FloatOps D⦄ where
  unfoldable pub set_based_on_server_time :
      D → D → MovementInterpolator D F → MovementInterpolator D F
  set_based_on_server_time avg_rtt jitter m =
      let tick = dl.of_uint 1 ⊘ dl.of_uint 30 in
      let delay = (tick ⊕ (avg_rtt ⊗ dl.literal 1 2)) ⊕ jitter in
      record m { interpolation_delay = clamp delay min_interpolation_delay max_interpolation_delay }

  -- Where the comparison orders the two limits as they are, the delay lies between them, whatever
  -- the server's times were.
  pub set_based_on_server_time_within :
      (avg_rtt jitter : D) (m : MovementInterpolator D F)
      → dl.less min_interpolation_delay min_interpolation_delay ≡ false
      → dl.less max_interpolation_delay max_interpolation_delay ≡ false
      → dl.less max_interpolation_delay min_interpolation_delay ≡ false
      → let delay = (set_based_on_server_time avg_rtt jitter m).interpolation_delay in
        (dl.less delay min_interpolation_delay ≡ false)
        × (dl.less max_interpolation_delay delay ≡ false)
  unfolding set_based_on_server_time
  set_based_on_server_time_within avg_rtt jitter m lo hi ordered =
      let tick = dl.of_uint 1 ⊘ dl.of_uint 30 in
      clamp_within ((tick ⊕ (avg_rtt ⊗ dl.literal 1 2)) ⊕ jitter) min_interpolation_delay
        max_interpolation_delay lo hi ordered
