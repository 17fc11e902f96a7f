-- ===== src/Strategy/Estimate/Quantity.antt =====
-- The quantity of an accepted estimate, against the depth of both sides and the notional limit.
use arb_bot.Prelude.{◌≡◌, List, ◌∷◌, some}
use arb_bot.Clock.{Time}
use arb_bot.Float.{Float64, IsIeee, nought, ◌≼◌, ◌≺◌, ◌⊘◌}
use arb_bot.Exchange.{Level}
use arb_bot.Strategy.Depth.{vwap_for_quantity, sum_quantity, max_float}
use arb_bot.Strategy.Depth.Fill.{vwap_for_quantity-le}
use arb_bot.Strategy.Depth.Smallest.{min_positive-le}
use arb_bot.Strategy.Estimate.{
  EstimateInput, Opportunity, accepted, depth_of, target_quantity, priced, estimate_funding,
}
use arb_bot.Strategy.Estimate.Accepted.{estimate_funding-accepted}

module _ {W : Type 0} ⦃f : Float64 W⦄ (laws : IsIeee W) where
  -- For floats that obey IEEE 754: an accepted opportunity has a positive quantity, which the counted levels of either side hold;
  -- and its entry prices are the volume-weighted prices of that quantity.
  pub estimate_funding-quantity :
      (clock : Time) (input : EstimateInput W) (o : Opportunity W)
      → estimate_funding clock input ≡ accepted o
      → (nought ≺ o.quantity)
        × (o.quantity ≼ sum_quantity input.long_book.asks (depth_of input))
        × (o.quantity ≼ sum_quantity input.short_book.bids (depth_of input))
        × (vwap_for_quantity input.long_book.asks o.quantity (depth_of input)
            ≡ some o.long_entry_price)
        × (vwap_for_quantity input.short_book.bids o.quantity (depth_of input)
            ≡ some o.short_entry_price)
  unfolding priced
  estimate_funding-quantity clock input o e =
      let r = estimate_funding-accepted clock input e in
      let (positive, long_le) = vwap_for_quantity-le laws _ _ _ r.long_eq in
      let short_le = (vwap_for_quantity-le laws _ _ _ r.short_eq).1 in
      rw r.priced_eq (positive, long_le, short_le, r.long_eq, r.short_eq)

  -- For floats that obey IEEE 754: with best levels `ask` and `bid`, and a notional limit whose quotient by the larger of the two
  -- prices is positive, an accepted quantity is at most that quotient.
  pub estimate_funding-max_notional :
      (clock : Time) (input : EstimateInput W) (o : Opportunity W) (ask bid : Level W)
      (asks bids : List (Level W))
      → input.long_book.asks ≡ ask ∷ asks
      → input.short_book.bids ≡ bid ∷ bids
      → nought ≺ input.max_notional ⊘ max_float ask.price bid.price
      → estimate_funding clock input ≡ accepted o
      → o.quantity ≼ input.max_notional ⊘ max_float ask.price bid.price
  unfolding priced target_quantity
  estimate_funding-max_notional clock input o ask bid asks bids p q positive e =
      let r = estimate_funding-accepted clock input e in
      let bound = min_positive-le laws _ (vwap_for_quantity-le laws _ _ _ r.long_eq).0 in
      let ask_eq : r.ask0 ≡ ask = cc (r.asks_eq, p) in
      let bid_eq : r.bid0 ≡ bid = cc (r.bids_eq, q) in
      rw r.priced_eq (rw (← ask_eq, ← bid_eq) (bound.1.1.0 (rw (ask_eq, bid_eq) positive)))
