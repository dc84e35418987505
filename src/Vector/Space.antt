-- ===== src/Vector/Space.antt =====
-- `Vec3` of DummyClient/Types.h.
use jam_client_prototype.Prelude.{Bool, ◌&&◌, if◌then◌else◌}
use jam_client_prototype.FloatOps.{FloatOps, ◌⊕◌, ◌⊖◌, ◌⊗◌, ◌⊘◌}

pub record Vec3 {ℓ} (F : Type ℓ) : Type ℓ where
  pub x : F
  pub y : F
  pub z : F

module _ {ℓ} {F : Type ℓ} ⦃fl : FloatOps F⦄ where
  unfoldable pub add : Vec3 F → Vec3 F → Vec3 F
  add v other = record { x = v.x ⊕ other.x; y = v.y ⊕ other.y; z = v.z ⊕ other.z }

  unfoldable pub sub : Vec3 F → Vec3 F → Vec3 F
  sub v other = record { x = v.x ⊖ other.x; y = v.y ⊖ other.y; z = v.z ⊖ other.z }

  unfoldable pub scale : Vec3 F → F → Vec3 F
  scale v value = record { x = v.x ⊗ value; y = v.y ⊗ value; z = v.z ⊗ value }

  unfoldable pub add_assign : Vec3 F → Vec3 F → Vec3 F
  add_assign v other =
      let w = record v { x = v.x ⊕ other.x } in
      let w = record w { y = w.y ⊕ other.y } in record w { z = w.z ⊕ other.z }

  unfoldable pub sub_assign : Vec3 F → Vec3 F → Vec3 F
  sub_assign v other =
      let w = record v { x = v.x ⊖ other.x } in
      let w = record w { y = w.y ⊖ other.y } in record w { z = w.z ⊖ other.z }

  unfoldable pub scale_assign : Vec3 F → F → Vec3 F
  scale_assign v ratio =
      let w = record v { x = v.x ⊗ ratio } in
      let w = record w { y = w.y ⊗ ratio } in record w { z = w.z ⊗ ratio }

  unfoldable pub equal : Vec3 F → Vec3 F → Bool
  equal v other = fl.equal v.x other.x && (fl.equal v.y other.y && fl.equal v.z other.z)

  unfoldable pub length_squared : Vec3 F → F
  length_squared v = ((v.x ⊗ v.x) ⊕ (v.y ⊗ v.y)) ⊕ (v.z ⊗ v.z)

  unfoldable pub vec_length : Vec3 F → F
  vec_length v = fl.sqrt (length_squared v)

  unfoldable pub normalize : Vec3 F → Vec3 F
  normalize v =
      let len = vec_length v in
      if fl.less len (fl.literal 1 100000000)
      then v
      else (let w = record v { x = v.x ⊘ len } in
          let w = record w { y = w.y ⊘ len } in record w { z = w.z ⊘ len })

  unfoldable pub dot : Vec3 F → Vec3 F → F
  dot v other = ((v.x ⊗ other.x) ⊕ (v.y ⊗ other.y)) ⊕ (v.z ⊗ other.z)

  unfoldable pub cross : Vec3 F → Vec3 F → Vec3 F
  cross v other = record {
    x = (v.y ⊗ other.z) ⊖ (v.z ⊗ other.y);
    y = (v.z ⊗ other.x) ⊖ (v.x ⊗ other.z);
    z = (v.x ⊗ other.y) ⊖ (v.y ⊗ other.x);
  }
