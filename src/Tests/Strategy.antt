-- ===== src/Tests/Strategy.antt =====
-- Examples of the estimator.
use arb_bot.Prelude.{◌≡◌, refl, [], ◌∷◌, some, arith, pos}
use arb_bot.Float.{nought, IsNumber, ◌≼◌, ◌≺◌, ◌⊘◌}
use arb_bot.Float.Fixed.{millionths, fixed_float}
use arb_bot.Float.Fixed.Ieee.{Fixed-IsIeee}
use arb_bot.Exchange.{bybit, okx}
use arb_bot.Strategy.Depth.{vwap_for_quantity, sum_quantity, max_float}
use arb_bot.Strategy.Estimate.{depth_of}
use arb_bot.Strategy.Estimate.Quantity.{estimate_funding-quantity, estimate_funding-max_notional}
use arb_bot.Strategy.Estimate.Carry.{IsSane, estimate_funding-carry}
use arb_bot.Strategy.Ident.{new_opportunity_id-injective}
use arb_bot.Tests.Data.{cents, level, now, input, found, estimate}

estimate_funding-quantity_example :
    (nought ≺ found.quantity)
    × (found.quantity ≼ sum_quantity input.long_book.asks (depth_of input))
    × (found.quantity ≼ sum_quantity input.short_book.bids (depth_of input))
    × (vwap_for_quantity input.long_book.asks found.quantity (depth_of input)
        ≡ some found.long_entry_price)
    × (vwap_for_quantity input.short_book.bids found.quantity (depth_of input)
        ≡ some found.short_entry_price)
estimate_funding-quantity_example = estimate_funding-quantity Fixed-IsIeee now input found estimate

limit_positive : nought ≺ input.max_notional ⊘ max_float (cents 10_000) (cents 10_020)
unfolding fixed_float max_float
limit_positive = refl

estimate_funding-max_notional_example :
    found.quantity ≼ input.max_notional ⊘ max_float (cents 10_000) (cents 10_020)
estimate_funding-max_notional_example =
    estimate_funding-max_notional Fixed-IsIeee now input found (level 10_000 50) (level 10_020 40)
      (level 10_010 60 ∷ []) (level 10_000 80 ∷ []) refl refl limit_positive estimate

input-IsSane : IsSane input
unfolding fixed_float
input-IsSane = record { long_fee = refl; short_fee = refl; basis_risk = refl; mark = refl }

net-IsNumber : IsNumber found.expected_net_profit_usd
unfolding fixed_float
net-IsNumber = refl

estimate_funding-carry_example :
    (nought ≺ found.expected_net_profit_usd)
    × (nought ≺ found.expected_carry_usd)
    × (nought ≺ found.net_funding_rate_pct)
estimate_funding-carry_example =
    estimate_funding-carry Fixed-IsIeee now input found input-IsSane estimate net-IsNumber

priced :
    vwap_for_quantity (level 100 50 ∷ level 200 50 ∷ []) (cents 75) (pos 5)
    ≡ some (millionths (pos 1_333_333))
unfolding vwap_for_quantity fixed_float
priced = refl

new_opportunity_id-injective_example : now ≡ input.detected_at
new_opportunity_id-injective_example =
    new_opportunity_id-injective input.symbol bybit okx now input.detected_at (omega arith)
      (omega arith) (omega arith) (omega arith) refl
