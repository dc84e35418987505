-- ===== src/Vector/Plane.antt =====
-- `Vec2` of DummyClient/Types.h.
use jam_client_prototype.Prelude.{Bool, ◌&&◌, if◌then◌else◌}
use jam_client_prototype.FloatOps.{FloatOps, ◌⊕◌, ◌⊖◌, ◌⊗◌, ◌⊘◌}

pub record Vec2 {ℓ} (F : Type ℓ) : Type ℓ where
  pub x : F
  pub y : F

module _ {ℓ} {F : Type ℓ} ⦃fl : FloatOps F⦄ where
  unfoldable pub add : Vec2 F → Vec2 F → Vec2 F
  add v other = record { x = v.x ⊕ other.x; y = v.y ⊕ other.y }

  unfoldable pub sub : Vec2 F → Vec2 F → Vec2 F
  sub v other = record { x = v.x ⊖ other.x; y = v.y ⊖ other.y }

  unfoldable pub scale : Vec2 F → F → Vec2 F
  scale v value = record { x = v.x ⊗ value; y = v.y ⊗ value }

  unfoldable pub add_assign : Vec2 F → Vec2 F → Vec2 F
  add_assign v other = let w = record v { x = v.x ⊕ other.x } in record w { y = w.y ⊕ other.y }

  unfoldable pub sub_assign : Vec2 F → Vec2 F → Vec2 F
  sub_assign v other = let w = record v { x = v.x ⊖ other.x } in record w { y = w.y ⊖ other.y }

  unfoldable pub scale_assign : Vec2 F → F → Vec2 F
  scale_assign v ratio = let w = record v { x = v.x ⊗ ratio } in record w { y = w.y ⊗ ratio }

  unfoldable pub equal : Vec2 F → Vec2 F → Bool
  equal v other = fl.equal v.x other.x && fl.equal v.y other.y

  unfoldable pub length_squared : Vec2 F → F
  length_squared v = (v.x ⊗ v.x) ⊕ (v.y ⊗ v.y)

  unfoldable pub vec_length : Vec2 F → F
  vec_length v = fl.sqrt (length_squared v)

  unfoldable pub normalize : Vec2 F → Vec2 F
  normalize v =
      let length = vec_length v in
      if fl.less length (fl.literal 1 100000000000)
      then v
      else (let w = record v { x = v.x ⊘ length } in record w { y = w.y ⊘ length })

  unfoldable pub dot : Vec2 F → Vec2 F → F
  dot v other = (v.x ⊗ other.x) ⊕ (v.y ⊗ other.y)

  unfoldable pub cross : Vec2 F → Vec2 F → F
  cross v other = (v.x ⊗ other.y) ⊖ (v.y ⊗ other.x)
