-- ===== src/Strategy/Estimate/Carry.antt =====
-- A net profit needs a positive funding difference.
use arb_bot.Prelude.{◌≡◌, arith, Bool-cases, inl, inr}
use arb_bot.Clock.{Time}
use arb_bot.Float.{Float64, IsIeee, IsNumber, nought, hundred, lt, ◌≼◌, ◌≺◌, ◌⊕◌, ◌⊖◌, ◌⊗◌, ◌⊘◌}
use arb_bot.Float.Order.{le_of_lt, lt_of_not_le, lt_of_le_of_lt}
use arb_bot.Strategy.Depth.{max_float}
use arb_bot.Strategy.Depth.Fill.{vwap_for_quantity-le}
use arb_bot.Strategy.Depth.Price.{vwap_for_quantity_nonneg}
use arb_bot.Strategy.Estimate.{EstimateInput, Opportunity, accepted, priced, estimate_funding}
use arb_bot.Strategy.Estimate.Accepted.{estimate_funding-accepted}

-- Fees, the risk buffer and the mark price are not negative.
pub record IsSane {W : Type 0} ⦃f : Float64 W⦄ (input : EstimateInput W) : Type 0 where
  pub long_fee : nought ≼ input.long_fee_pct
  pub short_fee : nought ≼ input.short_fee_pct
  pub basis_risk : nought ≼ input.basis_risk_pct
  pub mark : nought ≼ input.long_funding.mark_price

module _ {W : Type 0} ⦃f : Float64 W⦄ (laws : IsIeee W) where
  open laws use {
    nought_number, number_of_le, le_trans, number_of_add, number_of_sub, number_of_mul,
    number_of_div, le_add_right, sub_pos, mul_nonneg, pos_of_mul, div_nonneg, pos_of_div,
  }

  -- A percentage of a product of things that are not negative.
  share_nonneg :
      (amount pct : W)
      → (IsNumber amount → nought ≼ amount)
      → nought ≼ pct
      → IsNumber (amount ⊗ pct ⊘ hundred)
      → nought ≼ amount ⊗ pct ⊘ hundred
  share_nonneg amount pct a p num =
      let product_num = (number_of_div (amount ⊗ pct) hundred num).0 in
      div_nonneg _ 99 (omega arith)
        (mul_nonneg amount pct (a (number_of_mul amount pct product_num).0) p product_num)

  product_nonneg :
      (qty price : W)
      → nought ≼ qty
      → (IsNumber price → nought ≼ price)
      → IsNumber (qty ⊗ price)
      → nought ≼ qty ⊗ price
  product_nonneg qty price q p num = mul_nonneg qty price q (p (number_of_mul qty price num).1) num

  -- What remains above 0 after costs was above 0 before.
  pos_of_sub : (x y : W) → (IsNumber y → nought ≼ y) → nought ≺ x ⊖ y → nought ≺ x
  pos_of_sub x y low h =
      let below : y ≺ x = ground (arith, sub_pos x y) in
      lt_of_le_of_lt laws nought y x (low (number_of_le y x (le_of_lt laws y x below)).0) below

  max_nonneg :
      (a b : W)
      → (IsNumber a → nought ≼ a)
      → (IsNumber b → nought ≼ b)
      → IsNumber (max_float a b)
      → nought ≼ max_float a b
  unfolding max_float
  max_nonneg a b p q num = elim (Bool-cases (lt b a)) [
    | inl e ↦ rw e (p (rw e at num))
    | inr e ↦ rw e (q (rw e at num))
  ]

  module _ (input : EstimateInput W) (sane : IsSane input) (qty long short : W) where
    abbrev Prices : Type 0
    Prices = (nought ≼ qty) × (IsNumber long → nought ≼ long) × (IsNumber short → nought ≼ short)

    abbrev fees : W
    fees = qty ⊗ long ⊗ input.long_fee_pct ⊘ hundred ⊕ qty ⊗ short ⊗ input.short_fee_pct ⊘ hundred

    fees_nonneg : Prices → IsNumber fees → nought ≼ fees
    fees_nonneg (q, l, s) num =
        let (on_long, on_short) = number_of_add _ _ num in
        let low = share_nonneg (qty ⊗ long) _ (product_nonneg qty long q l) sane.long_fee on_long in
        le_trans _ _ _ low (
          le_add_right _ _ low
            (share_nonneg (qty ⊗ short) _ (product_nonneg qty short q s) sane.short_fee on_short))

    buffer_nonneg :
        Prices
        → IsNumber (qty ⊗ max_float long short ⊗ input.basis_risk_pct ⊘ hundred)
        → nought ≼ qty ⊗ max_float long short ⊗ input.basis_risk_pct ⊘ hundred
    buffer_nonneg (q, l, s) =
        share_nonneg _ _ (product_nonneg qty _ q (max_nonneg long short l s)) sane.basis_risk

    carry_positive :
        Prices
        → (net_rate : W) → nought ≺ qty ⊗ input.long_funding.mark_price ⊗ net_rate ⊘ hundred
        → nought ≺ net_rate
    carry_positive (q, l, s) net_rate h =
        let exposure = qty ⊗ input.long_funding.mark_price in
        let product = pos_of_div (exposure ⊗ net_rate) 99 (omega arith) h in
        let num = (number_of_le _ _ (le_of_lt laws _ _ product)).1 in
        let exposure_num = (number_of_mul exposure net_rate num).0 in
        pos_of_mul exposure net_rate (mul_nonneg qty _ q sane.mark exposure_num) product

    priced_positive :
        (clock : Time)
        → Prices
        → let o = priced clock input qty long short in
          (nought ≺ o.expected_net_profit_usd
            → (nought ≺ o.expected_carry_usd) × (nought ≺ o.net_funding_rate_pct))
    unfolding priced
    priced_positive clock ok net =
        let before_buffer = pos_of_sub _ _ (buffer_nonneg ok) net in
        let before_exit = pos_of_sub _ _ (fees_nonneg ok) before_buffer in
        let carry = pos_of_sub _ _ (fees_nonneg ok) before_exit in
        (carry, carry_positive ok _ carry)

  -- For floats that obey IEEE 754: if fees, risk buffer and mark price are not negative, an accepted opportunity whose net profit is
  -- a number has a positive net profit, a positive carry and a positive net funding rate.
  pub estimate_funding-carry :
      (clock : Time) (input : EstimateInput W) (o : Opportunity W)
      → IsSane input
      → estimate_funding clock input ≡ accepted o
      → IsNumber o.expected_net_profit_usd
      → (nought ≺ o.expected_net_profit_usd)
        × (nought ≺ o.expected_carry_usd)
        × (nought ≺ o.net_funding_rate_pct)
  estimate_funding-carry clock input o sane e num =
      let r = estimate_funding-accepted clock input e in
      let net = lt_of_not_le laws _ _ num nought_number r.passes.net_positive in
      let qty_low = le_of_lt laws _ _ (vwap_for_quantity-le laws _ _ _ r.long_eq).0 in
      let (carry, rate) =
        priced_positive input sane _ r.long r.short clock
          (
            qty_low,
            vwap_for_quantity_nonneg laws _ _ _ r.long_eq,
            vwap_for_quantity_nonneg laws _ _ _ r.short_eq,
          )
          (rw r.priced_eq at net) in
      (net, rw r.priced_eq carry, rw r.priced_eq rate)
