-- ===== src/FloatOps/Whole.antt =====
-- An instance of FloatOps for examples: a `float` that is a whole number.
use jam_client_prototype.Prelude.{ℕ, ◌+◌, ◌-◌, ◌*◌, ◌/◌, ◌%◌, ◌^◌, min, arith, ltb, leb, ◌==◌}
use jam_client_prototype.FloatOps.{FloatOps}

instance abbrev pub whole_numbers : FloatOps ℕ
whole_numbers = record {
  of_uint = λ n. n;
  add = λ a b. a + b;
  sub = λ a b. a - b;
  mul = λ a b. a * b;
  div = λ a b. a / b;
  neg = λ a. 0 - a;
  fmin = λ a b. min a b;
  fmax = λ a b. a + (b - a);
  sqrt = λ a. a;
  fabs = λ a. a;
  fmod = λ a b. a % b;
  sin = λ a. a;
  cos = λ a. a;
  pi = 3;
  less = ltb;
  less_equal = leb;
  equal = λ a b. a == b;
  literal = λ n d. n / d;
  to_uint16 = λ x. x % 2 ^ 16;
  to_int16 = λ x. x % 2 ^ 16;
  of_uint16 = λ n. n;
  of_int16 = λ n. n;
  to_uint16_lt = λ x. omega arith;
  to_int16_lt = λ x. omega arith;
}
