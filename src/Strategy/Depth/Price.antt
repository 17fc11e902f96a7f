-- ===== src/Strategy/Depth/Price.antt =====
-- The sign of a volume-weighted price.
use arb_bot.Prelude.{ℕ, ◌+◌, ◌≡◌, true, false, List, [], ◌∷◌, some, arith, Bool-cases, inl, inr, ℤ}
use arb_bot.Float.{Float64, IsIeee, IsNumber, nought, le, lt, ◌≼◌, ◌≺◌, ◌⊕◌, ◌⊗◌, ◌⊘◌}
use arb_bot.Float.Order.{le_of_lt, lt_of_not_le, lt_of_lt_of_le, lt_of_le_of_lt}
use arb_bot.Exchange.{Level}
use arb_bot.Strategy.Depth.{taken, vwap_loop, vwap_for_quantity}
use arb_bot.Strategy.Depth.Fill.{taken_bounds, taken-nan, vwap_loop-nan, vwap_for_quantity-le}

module _ {W : Type 0} ⦃f : Float64 W⦄ (laws : IsIeee W) where
  open laws use {
    nought_number, number_of_le, le_trans, le_total, number_of_add, number_of_mul, number_of_div,
    le_add_right, mul_nonneg, div_sign,
  }

  -- NaN, or not negative.
  abbrev IsCost : W → Type 0
  IsCost x = le x x ≡ true → nought ≼ x

  IsCost-step :
      (cost qty price : W)
      → IsCost cost
      → nought ≼ qty
      → le price nought ≡ false
      → IsCost (cost ⊕ qty ⊗ price)
  IsCost-step cost qty price c low above num =
      let (cost_num, product_num) = number_of_add cost (qty ⊗ price) num in
      let price_num = (number_of_mul qty price product_num).1 in
      let price_low =
        le_of_lt laws _ _ (lt_of_not_le laws price nought price_num nought_number above) in
      le_trans _ _ _ (c cost_num)
        (le_add_right cost _ (c cost_num) (mul_nonneg qty price low price_low product_num))

  div-IsCost : (cost filled : W) → IsCost cost → nought ≺ filled → IsCost (cost ⊘ filled)
  div-IsCost cost filled c h num = div_sign _ _ (c (number_of_div cost filled num).0) h num

  vwap_loop_nonneg :
      (target : W) (depth : ℤ) (i : ℕ) (cost filled : W) (levels : List (Level W)) (p : W)
      → IsCost cost
      → nought ≼ filled
      → filled ≺ target
      → vwap_loop target depth i cost filled levels ≡ some p
      → IsCost p
  unfolding vwap_loop
  vwap_loop_nonneg target depth i cost filled [] p c low short e num = cc
  vwap_loop_nonneg target depth i cost filled (l ∷ ls) p c low short e num =
      let qty = taken target filled l.quantity in
      let filled' = filled ⊕ qty in
      let cost' = cost ⊕ qty ⊗ l.price in
      elim (Bool-cases (lt nought l.quantity)) [
        | inl positive ↦ elim (Bool-cases (le l.price nought)) [
          | inl free ↦
              ground (arith, vwap_loop_nonneg target depth (i + 1) cost filled ls p c low short)
          | inr priced ↦
              let qty_low = (taken_bounds laws target filled l.quantity short positive).0 in
              let low' = le_trans _ _ _ low (le_add_right filled qty low qty_low) in
              let c' = IsCost-step cost qty l.price c qty_low priced in
              ground (
                arith,
                vwap_loop_nonneg target depth (i + 1) cost filled ls p c low short,
                vwap_loop_nonneg target depth (i + 1) cost' filled' ls p c' low',
                div-IsCost cost' filled' c',
                lt_of_lt_of_le laws nought target filled' (lt_of_le_of_lt laws _ _ _ low short),
                lt_of_not_le laws target filled'
                    (number_of_le filled target (le_of_lt laws _ _ short)).1
                    (number_of_le _ _ low').1,
              )
        ]
        | inr other ↦ ground (
          arith,
          vwap_loop_nonneg target depth (i + 1) cost filled ls p c low short,
          le_total l.quantity nought,
          nought_number,
          taken-nan laws target filled l.quantity,
          number_of_add filled l.quantity,
          number_of_le target (filled ⊕ l.quantity),
          vwap_loop-nan laws target depth (i + 1) cost' filled' ls,
        )
      ]

  -- The price is NaN or not negative.
  pub vwap_for_quantity_nonneg :
      (levels : List (Level W)) (target : W) (depth : ℤ) {p : W}
      → vwap_for_quantity levels target depth ≡ some p
      → IsNumber p
      → nought ≼ p
  unfolding vwap_for_quantity
  vwap_for_quantity_nonneg levels target depth {p} e num =
      let positive = (vwap_for_quantity-le laws levels target depth e).0 in
      vwap_loop_nonneg target depth 0 nought nought levels p (λ h. h) nought_number positive
        (ground arith) num
