-- ===== src/Float/Fixed/Ieee.antt =====
-- The fixed-point type satisfies every fact that the proofs use.
use arb_bot.Prelude.{
  ℕ, zero, suc, ◌^◌, ◌<◌, ◌≡◌, refl, ◌⊎◌, Bool, true, not, ◌&&◌, arith, ℤ, pos, negsuc, ◌+ℤ◌, ◌-ℤ◌,
}
use arb_bot.Float.{IsIeee}
use arb_bot.Float.Fixed.{
  Fixed, millionths, nan, fixed_float, scaled, product, quotient, le_fixed, add_fixed, sub_fixed,
  mul_fixed, div_fixed,
}

number_of_le : (x y : Fixed) → le_fixed x y ≡ true → (le_fixed x x ≡ true) × (le_fixed y y ≡ true)
unfolding le_fixed
number_of_le (millionths a) (millionths b) h = ground arith
number_of_le (millionths a) nan h = ground arith
number_of_le nan y h = ground arith

le_trans : (x y z : Fixed) → le_fixed x y ≡ true → le_fixed y z ≡ true → le_fixed x z ≡ true
unfolding le_fixed
le_trans (millionths a) (millionths b) (millionths c) h k = ground arith
le_trans _ _ _ h k = ground arith

le_total :
    (x y : Fixed)
    → le_fixed x x ≡ true
    → le_fixed y y ≡ true
    → (le_fixed x y ≡ true) ⊎ (le_fixed y x ≡ true)
unfolding le_fixed
le_total (millionths a) (millionths b) h k = ground arith
le_total _ _ h k = ground arith

number_of_add :
    (x y : Fixed)
    → le_fixed (add_fixed x y) (add_fixed x y) ≡ true
    → (le_fixed x x ≡ true) × (le_fixed y y ≡ true)
unfolding le_fixed add_fixed
number_of_add (millionths a) (millionths b) h = ground arith
number_of_add _ _ h = ground arith

number_of_sub :
    (x y : Fixed)
    → le_fixed (sub_fixed x y) (sub_fixed x y) ≡ true
    → (le_fixed x x ≡ true) × (le_fixed y y ≡ true)
unfolding le_fixed sub_fixed
number_of_sub (millionths a) (millionths b) h = ground arith
number_of_sub _ _ h = ground arith

number_of_mul :
    (x y : Fixed)
    → le_fixed (mul_fixed x y) (mul_fixed x y) ≡ true
    → (le_fixed x x ≡ true) × (le_fixed y y ≡ true)
unfolding le_fixed mul_fixed
number_of_mul (millionths a) (millionths b) h = ground arith
number_of_mul _ _ h = ground arith

number_of_div :
    (x y : Fixed)
    → le_fixed (div_fixed x y) (div_fixed x y) ≡ true
    → (le_fixed x x ≡ true) × (le_fixed y y ≡ true)
unfolding le_fixed div_fixed
number_of_div (millionths a) (millionths b) h = ground arith
number_of_div _ _ h = ground arith

abbrev origin : Fixed
origin = millionths (pos 0)

add_mono :
    (x y u v : Fixed)
    → le_fixed origin x ≡ true
    → le_fixed x u ≡ true
    → le_fixed origin y ≡ true
    → le_fixed y v ≡ true
    → le_fixed (add_fixed x y) (add_fixed u v) ≡ true
unfolding le_fixed add_fixed ◌+ℤ◌
add_mono (millionths a) (millionths b) (millionths c) (millionths d) h i j k = ground arith
add_mono _ _ _ _ h i j k = ground arith

le_add_right :
    (x y : Fixed)
    → le_fixed origin x ≡ true
    → le_fixed origin y ≡ true
    → le_fixed x (add_fixed x y) ≡ true
unfolding le_fixed add_fixed ◌+ℤ◌
le_add_right (millionths a) (millionths b) h i = ground arith
le_add_right _ _ h i = ground arith

abbrev lt_fixed : Fixed → Fixed → Bool
lt_fixed x y = le_fixed x y && not (le_fixed y x)

sub_pos : (x y : Fixed) → lt_fixed origin (sub_fixed x y) ≡ lt_fixed y x
unfolding le_fixed sub_fixed ◌-ℤ◌
sub_pos (millionths a) (millionths b) = ground arith
sub_pos _ _ = ground arith

le_of_sub : (x y : Fixed) → le_fixed (sub_fixed x y) origin ≡ true → le_fixed x y ≡ true
unfolding le_fixed sub_fixed ◌-ℤ◌
le_of_sub (millionths a) (millionths b) h = ground arith
le_of_sub _ _ h = ground arith

mul_nonneg :
    (x y : Fixed)
    → le_fixed origin x ≡ true
    → le_fixed origin y ≡ true
    → le_fixed (mul_fixed x y) (mul_fixed x y) ≡ true
    → le_fixed origin (mul_fixed x y) ≡ true
unfolding le_fixed mul_fixed product
mul_nonneg (millionths (pos a)) (millionths (pos b)) h i j = ground arith
mul_nonneg _ _ h i j = ground arith

pos_of_mul :
    (x y : Fixed)
    → le_fixed origin x ≡ true
    → lt_fixed origin (mul_fixed x y) ≡ true
    → lt_fixed origin y ≡ true
unfolding le_fixed mul_fixed product
pos_of_mul (millionths (pos a)) (millionths (pos zero)) h i = ground arith
pos_of_mul _ _ h i = ground arith

decimal_pos : (n : ℕ) → n < 2 ^ 53 → lt_fixed origin (millionths (scaled (pos (suc n)) 0)) ≡ true
unfolding le_fixed scaled
decimal_pos n h = ground arith

quotient_nonneg :
    (a : ℤ) (d : ℕ)
    → 0 < d
    → le_fixed origin (millionths a) ≡ true
    → le_fixed origin (quotient a (pos d)) ≡ true
unfolding le_fixed quotient
quotient_nonneg a zero h i = elim h [ ]
quotient_nonneg (pos a) (suc d) h i = ground arith
quotient_nonneg (negsuc a) (suc d) h i = ground arith

quotient_pos :
    (a : ℤ) (d : ℕ)
    → lt_fixed origin (quotient a (pos d)) ≡ true
    → lt_fixed origin (millionths a) ≡ true
unfolding le_fixed quotient
quotient_pos (pos zero) (suc d) i = ground arith
quotient_pos _ _ i = ground arith

div_nonneg :
    (x : Fixed) (n : ℕ)
    → n < 2 ^ 53
    → le_fixed origin x ≡ true
    → le_fixed origin (div_fixed x (millionths (scaled (pos (suc n)) 0))) ≡ true
unfolding le_fixed scaled div_fixed
div_nonneg (millionths a) n h i = quotient_nonneg a _ (omega arith) i
div_nonneg nan n h i = ground arith

pos_of_div :
    (x : Fixed) (n : ℕ)
    → n < 2 ^ 53
    → lt_fixed origin (div_fixed x (millionths (scaled (pos (suc n)) 0))) ≡ true
    → lt_fixed origin x ≡ true
unfolding le_fixed scaled div_fixed
pos_of_div (millionths a) n h i = quotient_pos a _ i
pos_of_div nan n h i = ground arith

div_sign :
    (x y : Fixed)
    → le_fixed origin x ≡ true
    → lt_fixed origin y ≡ true
    → le_fixed (div_fixed x y) (div_fixed x y) ≡ true
    → le_fixed origin (div_fixed x y) ≡ true
unfolding le_fixed div_fixed quotient
div_sign (millionths (pos a)) (millionths (pos (suc b))) h i j = ground arith
div_sign _ _ h i j = ground arith

pub Fixed-IsIeee : IsIeee Fixed
unfolding fixed_float
Fixed-IsIeee = record {
  nought_number = refl;
  decimal_pos = decimal_pos;
  number_of_le = number_of_le;
  le_trans = le_trans;
  le_total = le_total;
  number_of_add = number_of_add;
  number_of_sub = number_of_sub;
  number_of_mul = number_of_mul;
  number_of_div = number_of_div;
  add_mono = add_mono;
  le_add_right = le_add_right;
  sub_pos = sub_pos;
  le_of_sub = le_of_sub;
  mul_nonneg = mul_nonneg;
  pos_of_mul = pos_of_mul;
  div_nonneg = div_nonneg;
  div_sign = div_sign;
  pos_of_div = pos_of_div;
}
