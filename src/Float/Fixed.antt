-- ===== src/Float/Fixed.antt =====
-- A type with these operations on which definitions run: millionths, rounded towards zero, and NaN.
pub mod Ieee
use arb_bot.Prelude.{
  ℕ, zero, suc, ◌+◌, ◌*◌, ◌/◌, ◌^◌, ◌<◌, ◌≡◌, refl, ◌⊎◌, Bool, true, false, not, ◌&&◌, arith, ℤ,
  pos, negsuc, sub_ℕ, ◌+ℤ◌, ◌-ℤ◌, leb_ℤ,
}
use arb_bot.Float.{Float64, IsIeee, nought, ◌≼◌, ◌≺◌, ◌⊕◌, ◌⊖◌}

pub data Fixed : Type 0 where
  millionths : ℤ → Fixed
  nan : Fixed

abbrev scale : ℕ
scale = 1_000_000

abbrev neg : ℕ → ℤ
neg n = sub_ℕ 0 n

scaled : ℤ → ℕ → ℤ
scaled (pos m) e = pos (m * scale / 10 ^ e)
scaled (negsuc m) e = neg ((m + 1) * scale / 10 ^ e)

product : ℤ → ℤ → ℤ
product (pos a) (pos b) = pos (a * b / scale)
product (pos a) (negsuc b) = neg (a * (b + 1) / scale)
product (negsuc a) (pos b) = neg ((a + 1) * b / scale)
product (negsuc a) (negsuc b) = pos ((a + 1) * (b + 1) / scale)

quotient : ℤ → ℤ → Fixed
quotient (pos a) (pos zero) = nan
quotient (pos a) (pos (suc b)) = millionths (pos (a * scale / (b + 1)))
quotient (pos a) (negsuc b) = millionths (neg (a * scale / (b + 1)))
quotient (negsuc a) (pos zero) = nan
quotient (negsuc a) (pos (suc b)) = millionths (neg ((a + 1) * scale / (b + 1)))
quotient (negsuc a) (negsuc b) = millionths (pos ((a + 1) * scale / (b + 1)))

le_fixed : Fixed → Fixed → Bool
le_fixed (millionths a) (millionths b) = leb_ℤ a b
le_fixed _ _ = false

add_fixed : Fixed → Fixed → Fixed
add_fixed (millionths a) (millionths b) = millionths (a +ℤ b)
add_fixed _ _ = nan

sub_fixed : Fixed → Fixed → Fixed
sub_fixed (millionths a) (millionths b) = millionths (a -ℤ b)
sub_fixed _ _ = nan

mul_fixed : Fixed → Fixed → Fixed
mul_fixed (millionths a) (millionths b) = millionths (product a b)
mul_fixed _ _ = nan

div_fixed : Fixed → Fixed → Fixed
div_fixed (millionths a) (millionths b) = quotient a b
div_fixed _ _ = nan

instance unfoldable pub fixed_float : Float64 Fixed
unfolding scaled product quotient le_fixed add_fixed sub_fixed mul_fixed div_fixed ◌+ℤ◌ ◌-ℤ◌
fixed_float = record {
  decimal = λ m e. millionths (scaled m e);
  add = add_fixed;
  sub = sub_fixed;
  mul = mul_fixed;
  div = div_fixed;
  le = le_fixed;
}
