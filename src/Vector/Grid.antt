-- ===== src/Vector/Grid.antt =====
-- `Vec2Int` of DummyClient/Types.h. An int32 is the 32 bits of its two's complement.
use jam_client_prototype.Prelude.{ℕ, ◌+◌, ◌-◌, ◌*◌, ◌%◌, ◌^◌, Bool, ◌&&◌}
use jam_client_prototype.FloatOps.{FloatOps}
use jam_client_prototype.Vector.Plane.{Vec2}

abbrev pub word32 : ℕ
word32 = 2 ^ 32

-- Where the result leaves int32 the compiler's behaviour is undefined; the machine's wraps.
unfoldable pub plus : ℕ → ℕ → ℕ
plus a b = (a + b) % word32

unfoldable pub minus : ℕ → ℕ → ℕ
minus a b = (a + word32 - b) % word32

unfoldable pub times : ℕ → ℕ → ℕ
times a b = a * b % word32

pub record Vec2Int : Type 0 where
  pub x : ℕ
  pub y : ℕ

unfoldable pub add : Vec2Int → Vec2Int → Vec2Int
add v other = record { x = plus v.x other.x; y = plus v.y other.y }

unfoldable pub sub : Vec2Int → Vec2Int → Vec2Int
sub v other = record { x = minus v.x other.x; y = minus v.y other.y }

unfoldable pub scale : Vec2Int → ℕ → Vec2Int
scale v value = record { x = times v.x value; y = times v.y value }

unfoldable pub add_assign : Vec2Int → Vec2Int → Vec2Int
add_assign v other = let w = record v { x = plus v.x other.x } in record w { y = plus w.y other.y }

unfoldable pub sub_assign : Vec2Int → Vec2Int → Vec2Int
sub_assign v other =
    let w = record v { x = minus v.x other.x } in record w { y = minus w.y other.y }

unfoldable pub length_squared : Vec2Int → ℕ
length_squared v = plus (times v.x v.x) (times v.y v.y)

unfoldable pub dot : Vec2Int → Vec2Int → ℕ
dot v other = plus (times v.x other.x) (times v.y other.y)

unfoldable pub cross : Vec2Int → Vec2Int → ℕ
cross v other = minus (times v.x other.y) (times v.y other.x)

-- `operator==` compares with a vector of floats; `of_int32` is the conversion.
unfoldable pub equal {ℓ} : {F : Type ℓ} ⦃fl : FloatOps F⦄ → (ℕ → F) → Vec2Int → Vec2 F → Bool
equal ⦃fl⦄ of_int32 v other = fl.equal (of_int32 v.x) other.x && fl.equal (of_int32 v.y) other.y
