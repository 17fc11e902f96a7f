-- ===== src/Float/Order.antt =====
-- The order of floats, from the facts of the standard.
use arb_bot.Prelude.{◌≡◌, false, arith}
use arb_bot.Float.{Float64, IsIeee, IsNumber, le, ◌≼◌, ◌≺◌}

module _ {W : Type 0} ⦃f : Float64 W⦄ (laws : IsIeee W) where
  open laws use {number_of_le, le_trans, le_total, sub_pos}

  pub le_of_lt : (x y : W) → x ≺ y → x ≼ y
  le_of_lt x y h = ground arith

  pub lt_of_lt_of_le : (x y z : W) → x ≺ y → y ≼ z → x ≺ z
  lt_of_lt_of_le x y z h k = ground (arith, le_trans x y z, le_trans y z x)

  pub lt_of_le_of_lt : (x y z : W) → x ≼ y → y ≺ z → x ≺ z
  lt_of_le_of_lt x y z h k = ground (arith, le_trans x y z, le_trans z x y)

  pub lt_of_not_le : (x y : W) → IsNumber x → IsNumber y → le x y ≡ false → y ≺ x
  lt_of_not_le x y m n h = ground (arith, le_total x y m n)
