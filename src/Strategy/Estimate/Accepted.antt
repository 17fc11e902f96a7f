-- ===== src/Strategy/Estimate/Accepted.antt =====
-- What an accepted estimate satisfies.
use arb_bot.Prelude.{◌≡◌, ◌≢◌, refl, false, List, [], ◌∷◌, some, arith, Option-cases, inl, inr}
use arb_bot.Clock.{Time}
use arb_bot.Float.{Float64, nought, le, lt}
use arb_bot.Exchange.{Level}
use arb_bot.Strategy.Depth.{vwap_for_quantity}
use arb_bot.Strategy.Estimate.{
  EstimateInput, Opportunity, accepted, depth_of, target_quantity, priced, thresholds, fill_prices,
  with_tops, estimate_from, estimate_funding,
}

module _ {W : Type 0} ⦃f : Float64 W⦄ where
  -- The thresholds of the input hold, as far as their comparisons say.
  pub record Passes (input : EstimateInput W) (o : Opportunity W) : Type 0 where
    pub carry_ge : lt o.expected_carry_usd input.min_expected_carry_usd ≡ false
    pub net_positive : le o.expected_net_profit_usd nought ≡ false
    pub net_pct_ge : lt o.expected_net_profit_pct input.min_expected_carry_pct ≡ false

  thresholds-accepted :
      (input : EstimateInput W) (o o' : Opportunity W)
      → thresholds input o ≡ accepted o'
      → (o' ≡ o) × Passes input o
  unfolding thresholds
  thresholds-accepted input o o' e = ground arith

  -- How an accepted opportunity comes about.
  pub record Origin (clock : Time) (input : EstimateInput W) (o : Opportunity W) : Type 0 where
    pub ask0 : Level W
    pub bid0 : Level W
    pub asks : List (Level W)
    pub bids : List (Level W)
    pub long : W
    pub short : W
    pub asks_eq : input.long_book.asks ≡ ask0 ∷ asks
    pub bids_eq : input.short_book.bids ≡ bid0 ∷ bids
    pub windows :
        (input.long_funding.next_funding_time ≢ 0) × (input.short_funding.next_funding_time ≢ 0)
    pub tops :
        (le ask0.price nought ≡ false)
        × (le bid0.price nought ≡ false)
        × (le ask0.quantity nought ≡ false)
        × (le bid0.quantity nought ≡ false)
    pub long_eq :
        vwap_for_quantity input.long_book.asks (target_quantity input ask0 bid0) (depth_of input)
        ≡ some long
    pub short_eq :
        vwap_for_quantity input.short_book.bids (target_quantity input ask0 bid0) (depth_of input)
        ≡ some short
    pub priced_eq : o ≡ priced clock input (target_quantity input ask0 bid0) long short
    pub passes : Passes input o

  fill_prices-accepted :
      (clock : Time) (input : EstimateInput W) (qty : W) (o : Opportunity W)
      → fill_prices clock input qty ≡ accepted o
      → (long : W) × (short : W) × (vwap_for_quantity input.long_book.asks qty (depth_of input)
          ≡ some long)
        × (vwap_for_quantity input.short_book.bids qty (depth_of input) ≡ some short)
        × (o ≡ priced clock input qty long short)
        × Passes input o
  unfolding fill_prices
  fill_prices-accepted clock input qty o e =
      elim (Option-cases (vwap_for_quantity input.long_book.asks qty (depth_of input))) [
        | inl nothing ↦ cc (rw (nothing, fill_prices) at e)
        | inr (long, long_eq) ↦
            elim (Option-cases (vwap_for_quantity input.short_book.bids qty (depth_of input))) [
              | inl nothing ↦ cc (rw (long_eq, nothing, fill_prices) at e)
              | inr (short, short_eq) ↦
                  let (same, ok) =
                    thresholds-accepted input (priced clock input qty long short) o
                      (rw (long_eq, short_eq, fill_prices) at e) in
                  (long, short, long_eq, short_eq, same, rw same ok)
            ]
      ]

  with_tops-accepted :
      (clock : Time) (input : EstimateInput W) (ask0 bid0 : Level W) (o : Opportunity W)
      → with_tops clock input ask0 bid0 ≡ accepted o
      → (le ask0.price nought ≡ false)
        × (le bid0.price nought ≡ false)
        × (le ask0.quantity nought ≡ false)
        × (le bid0.quantity nought ≡ false)
        × (fill_prices clock input (target_quantity input ask0 bid0) ≡ accepted o)
  unfolding with_tops
  with_tops-accepted clock input ask0 bid0 o e = ground arith

  estimate_from-accepted :
      (clock : Time) (input : EstimateInput W) (asks bids : List (Level W)) (o : Opportunity W)
      → input.long_book.asks ≡ asks
      → input.short_book.bids ≡ bids
      → estimate_from clock input asks bids ≡ accepted o
      → Origin clock input o
  unfolding estimate_from
  estimate_from-accepted clock input [] bids o p q e = cc
  estimate_from-accepted clock input (ask0 ∷ asks) [] o p q e = cc
  estimate_from-accepted clock input (ask0 ∷ asks) (bid0 ∷ bids) o p q e =
      let run : with_tops clock input ask0 bid0 ≡ accepted o = ground arith in
      let (t1, t2, t3, t4, filled) = with_tops-accepted clock input ask0 bid0 o run in
      let (long, short, long_eq, short_eq, same, ok) =
        fill_prices-accepted clock input (target_quantity input ask0 bid0) o filled in
      record {
        ask0 = ask0;
        bid0 = bid0;
        asks = asks;
        bids = bids;
        long = long;
        short = short;
        asks_eq = p;
        bids_eq = q;
        windows = ground arith;
        tops = (t1, t2, t3, t4);
        long_eq = long_eq;
        short_eq = short_eq;
        priced_eq = same;
        passes = ok;
      }

  -- An estimate that is accepted went through every step.
  pub estimate_funding-accepted :
      (clock : Time) (input : EstimateInput W) {o : Opportunity W}
      → estimate_funding clock input ≡ accepted o
      → Origin clock input o
  unfolding estimate_funding
  estimate_funding-accepted clock input {o} e =
      estimate_from-accepted clock input input.long_book.asks input.short_book.bids o refl refl e
