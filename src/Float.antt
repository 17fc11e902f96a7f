-- ===== src/Float.antt =====
-- Go's `float64`. The language is the standard's binary64: every operation is rounded by itself, and
-- a comparison with NaN is false. The type is a parameter: its operations are a record, and the
-- facts of the standard that proofs use are another, each of them true of infinities, signed zeros,
-- subnormals and NaN as well.
pub mod Fixed
pub mod Order
use arb_bot.Prelude.{ℕ, suc, ◌^◌, ◌<◌, ℤ, pos, negsuc, Bool, true, not, ◌&&◌, ◌≡◌, ◌⊎◌}

-- `decimal m e` is the constant m * 10^-e, or an integer converted by `float64(m)` where e is 0.
pub record Float64 (W : Type 0) : Type 0 where
  pub decimal : ℤ → ℕ → W
  pub add : W → W → W
  pub sub : W → W → W
  pub mul : W → W → W
  pub div : W → W → W
  pub le : W → W → Bool

module _ {W : Type 0} ⦃f : Float64 W⦄ where
  infixl 65 ◌⊕◌ ◌⊖◌
  infixl 70 ◌⊗◌ ◌⊘◌
  abbrev pub ◌⊕◌ : W → W → W
  x ⊕ y = f.add x y

  abbrev pub ◌⊖◌ : W → W → W
  x ⊖ y = f.sub x y

  abbrev pub ◌⊗◌ : W → W → W
  x ⊗ y = f.mul x y

  abbrev pub ◌⊘◌ : W → W → W
  x ⊘ y = f.div x y

  abbrev pub decimal : ℤ → ℕ → W
  decimal m e = f.decimal m e

  -- 0.0, also the value of a field that a literal leaves out.
  abbrev pub nought : W
  nought = f.decimal (pos 0) 0

  abbrev pub hundred : W
  hundred = f.decimal (pos 100) 0

  -- `x <= y`, `x < y` and `x == y`; `x >= y` and `x > y` are written the other way round.
  abbrev pub le : W → W → Bool
  le x y = f.le x y

  abbrev pub lt : W → W → Bool
  lt x y = f.le x y && not (f.le y x)

  abbrev pub eq : W → W → Bool
  eq x y = f.le x y && f.le y x

module _ {W : Type 0} ⦃f : Float64 W⦄ where
  infix 4 ◌≼◌ ◌≺◌
  abbrev pub ◌≼◌ : W → W → Type 0
  x ≼ y = le x y ≡ true

  abbrev pub ◌≺◌ : W → W → Type 0
  x ≺ y = lt x y ≡ true

  -- Every value but NaN is `<=` itself.
  abbrev pub IsNumber : W → Type 0
  IsNumber x = x ≼ x

-- What IEEE 754 says of these operations.
pub record IsIeee (W : Type 0) ⦃f : Float64 W⦄ : Type 0 where
  pub nought_number : IsNumber (nought {W = W})
  -- Positive integers up to 2^53 are represented.
  pub decimal_pos : (n : ℕ) → n < 2 ^ 53 → nought {W = W} ≺ decimal (pos (suc n)) 0
  -- The order is total away from NaN.
  pub number_of_le : (x y : W) → x ≼ y → IsNumber x × IsNumber y
  pub le_trans : (x y z : W) → x ≼ y → y ≼ z → x ≼ z
  pub le_total : (x y : W) → IsNumber x → IsNumber y → (x ≼ y) ⊎ (y ≼ x)
  -- NaN is passed on.
  pub number_of_add : (x y : W) → IsNumber (x ⊕ y) → IsNumber x × IsNumber y
  pub number_of_sub : (x y : W) → IsNumber (x ⊖ y) → IsNumber x × IsNumber y
  pub number_of_mul : (x y : W) → IsNumber (x ⊗ y) → IsNumber x × IsNumber y
  pub number_of_div : (x y : W) → IsNumber (x ⊘ y) → IsNumber x × IsNumber y
  -- Rounding is monotone.
  pub add_mono : (x y u v : W) → nought ≼ x → x ≼ u → nought ≼ y → y ≼ v → x ⊕ y ≼ u ⊕ v
  pub le_add_right : (x y : W) → nought ≼ x → nought ≼ y → x ≼ x ⊕ y
  -- A difference has the sign of the comparison, since it does not underflow.
  pub sub_pos : (x y : W) → lt nought (x ⊖ y) ≡ lt y x
  pub le_of_sub : (x y : W) → x ⊖ y ≼ nought → x ≼ y
  -- The rule of signs.
  pub mul_nonneg : (x y : W) → nought ≼ x → nought ≼ y → IsNumber (x ⊗ y) → nought ≼ x ⊗ y
  pub pos_of_mul : (x y : W) → nought ≼ x → nought ≺ x ⊗ y → nought ≺ y
  pub div_nonneg : (x : W) (n : ℕ) → n < 2 ^ 53 → nought ≼ x → nought ≼ x ⊘ decimal (pos (suc n)) 0
  pub div_sign : (x y : W) → nought ≼ x → nought ≺ y → IsNumber (x ⊘ y) → nought ≼ x ⊘ y
  pub pos_of_div : (x : W) (n : ℕ) → n < 2 ^ 53 → nought ≺ x ⊘ decimal (pos (suc n)) 0 → nought ≺ x
