-- ===== src/Vector/Laws.antt =====
-- `Vec2Int` of DummyClient/Types.h as a group whose operations wrap.
use native.Mathlib.Nat.{mul_comm}
use jam_client_prototype.Prelude.{ℕ, ◌%◌, ◌<◌, ◌≡◌, ap, ◌∙◌, arith}
use jam_client_prototype.Vector.Grid.{
  Vec2Int, word32, plus, minus, times, add_assign, sub_assign, cross,
}

abbrev pub IsWord : Vec2Int → Type 0
IsWord v = (v.x < word32) × (v.y < word32)

minus-plus : (a b : ℕ) → a < word32 → b < word32 → minus (plus a b) b ≡ a
unfolding plus minus
minus-plus a b h k = omega arith

plus-minus : (a b : ℕ) → a < word32 → b < word32 → plus (minus a b) b ≡ a
unfolding plus minus
plus-minus a b h k = omega arith

minus_swap : (a b : ℕ) → a < word32 → b < word32 → plus (minus a b) (minus b a) ≡ 0
unfolding plus minus
minus_swap a b h k = omega arith

times_lt : (a b : ℕ) → times a b < word32
unfolding times
times_lt a b = omega arith

times_comm : (a b : ℕ) → times a b ≡ times b a
unfolding times
times_comm a b = ap (λ t. t % word32) (mul_comm a b)

vec_eq : (v w : Vec2Int) → v.x ≡ w.x → v.y ≡ w.y → v ≡ w
vec_eq v w e f = λ i. record { x = e i; y = f i }

-- On words of 32 bits, `-=` undoes `+=` and `+=` undoes `-=`, whether or not they wrap, and the
-- cross product changes its sign when its arguments are swapped.
pub sub_assign-add_assign :
    (v other : Vec2Int)
    → IsWord v
    → IsWord other
    → (sub_assign (add_assign v other) other ≡ v)
      × (add_assign (sub_assign v other) other ≡ v)
      × (plus (cross v other) (cross other v) ≡ 0)
unfolding add_assign sub_assign cross
sub_assign-add_assign v other (h, k) (h', k') = (
  vec_eq (sub_assign (add_assign v other) other) v (minus-plus v.x other.x h h')
      (minus-plus v.y other.y k k'),
  vec_eq (add_assign (sub_assign v other) other) v (plus-minus v.x other.x h h')
      (plus-minus v.y other.y k k'),
  ap (λ t. plus (cross v other) t)
        (λ i. minus (times_comm other.x v.y i) (times_comm other.y v.x i))
      ∙ minus_swap (times v.x other.y) (times v.y other.x) (times_lt v.x other.y)
          (times_lt v.y other.x),
)
