-- ===== src/Vector/Homogeneous.antt =====
-- `Vec4` of DummyClient/Types.h.
use jam_client_prototype.Prelude.{Bool, ◌&&◌, if◌then◌else◌}
use jam_client_prototype.FloatOps.{FloatOps, ◌⊕◌, ◌⊖◌, ◌⊗◌, ◌⊘◌}

pub record Vec4 {ℓ} (F : Type ℓ) : Type ℓ where
  pub x : F
  pub y : F
  pub z : F
  pub w : F

module _ {ℓ} {F : Type ℓ} ⦃fl : FloatOps F⦄ where
  unfoldable pub add : Vec4 F → Vec4 F → Vec4 F
  add v other = record {
    x = v.x ⊕ other.x;
    y = v.y ⊕ other.y;
    z = v.z ⊕ other.z;
    w = v.w ⊕ other.w;
  }

  unfoldable pub sub : Vec4 F → Vec4 F → Vec4 F
  sub v other = record {
    x = v.x ⊖ other.x;
    y = v.y ⊖ other.y;
    z = v.z ⊖ other.z;
    w = v.w ⊖ other.w;
  }

  unfoldable pub scale : Vec4 F → F → Vec4 F
  scale v value = record { x = v.x ⊗ value; y = v.y ⊗ value; z = v.z ⊗ value; w = v.w ⊗ value }

  unfoldable pub add_assign : Vec4 F → Vec4 F → Vec4 F
  add_assign v other =
      let u = record v { x = v.x ⊕ other.x } in
      let u = record u { y = u.y ⊕ other.y } in
      let u = record u { z = u.z ⊕ other.z } in record u { w = u.w ⊕ other.w }

  unfoldable pub sub_assign : Vec4 F → Vec4 F → Vec4 F
  sub_assign v other =
      let u = record v { x = v.x ⊖ other.x } in
      let u = record u { y = u.y ⊖ other.y } in
      let u = record u { z = u.z ⊖ other.z } in record u { w = u.w ⊖ other.w }

  unfoldable pub scale_assign : Vec4 F → F → Vec4 F
  scale_assign v ratio =
      let u = record v { x = v.x ⊗ ratio } in
      let u = record u { y = u.y ⊗ ratio } in
      let u = record u { z = u.z ⊗ ratio } in record u { w = u.w ⊗ ratio }

  -- The comparison of `w` stands behind the `;` of the return.
  unfoldable pub equal : Vec4 F → Vec4 F → Bool
  equal v other = fl.equal v.x other.x && (fl.equal v.y other.y && fl.equal v.z other.z)

  unfoldable pub length_squared : Vec4 F → F
  length_squared v = (((v.x ⊗ v.x) ⊕ (v.y ⊗ v.y)) ⊕ (v.z ⊗ v.z)) ⊕ (v.w ⊗ v.w)

  unfoldable pub vec_length : Vec4 F → F
  vec_length v = fl.sqrt (length_squared v)

  unfoldable pub normalize : Vec4 F → Vec4 F
  normalize v =
      let len = vec_length v in
      if fl.less len (fl.literal 1 100000000)
      then v
      else (let u = record v { x = v.x ⊘ len } in
          let u = record u { y = u.y ⊘ len } in
          let u = record u { z = u.z ⊘ len } in record u { w = u.w ⊘ len })

  unfoldable pub dot : Vec4 F → Vec4 F → F
  dot v other = (((v.x ⊗ other.x) ⊕ (v.y ⊗ other.y)) ⊕ (v.z ⊗ other.z)) ⊕ (v.w ⊗ other.w)

  unfoldable pub cross : Vec4 F → Vec4 F → Vec4 F
  cross v other = record {
    x = (v.y ⊗ other.z) ⊖ (v.z ⊗ other.y);
    y = (v.z ⊗ other.x) ⊖ (v.x ⊗ other.z);
    z = (v.x ⊗ other.y) ⊖ (v.y ⊗ other.x);
    w = fl.of_uint 0;
  }
