-- ===== src/FloatOps.antt =====
-- The arithmetic of `float`, which is the compiler's and the machine's: its operations as an
-- interface, which the modules that calculate take as an instance.
pub mod Whole
use jam_client_prototype.Prelude.{ℕ, ◌^◌, ◌<◌, Bool}

pub record FloatOps {ℓ} (F : Type ℓ) : Type ℓ where
  pub of_uint : ℕ → F
  pub add : F → F → F
  pub sub : F → F → F
  pub mul : F → F → F
  pub div : F → F → F
  pub neg : F → F
  pub fmin : F → F → F
  pub fmax : F → F → F
  pub sqrt : F → F
  pub fabs : F → F
  pub fmod : F → F → F
  pub sin : F → F
  pub cos : F → F
  pub pi : F
  pub less : F → F → Bool
  pub less_equal : F → F → Bool
  pub equal : F → F → Bool
  -- The literals of the code that are no whole numbers, by their numerator and denominator.
  pub literal : ℕ → ℕ → F
  -- A conversion to or from 16 bits: an int16 is the 16 bits of its two's complement.
  pub to_uint16 : F → ℕ
  pub to_int16 : F → ℕ
  pub of_uint16 : ℕ → F
  pub of_int16 : ℕ → F
  pub to_uint16_lt : (x : F) → to_uint16 x < 2 ^ 16
  pub to_int16_lt : (x : F) → to_int16 x < 2 ^ 16

module _ {ℓ} {F : Type ℓ} ⦃fl : FloatOps F⦄ where
  infixl 65 ◌⊕◌ ◌⊖◌
  infixl 70 ◌⊗◌ ◌⊘◌
  abbrev pub ◌⊕◌ : F → F → F
  a ⊕ b = fl.add a b

  abbrev pub ◌⊖◌ : F → F → F
  a ⊖ b = fl.sub a b

  abbrev pub ◌⊗◌ : F → F → F
  a ⊗ b = fl.mul a b

  abbrev pub ◌⊘◌ : F → F → F
  a ⊘ b = fl.div a b
