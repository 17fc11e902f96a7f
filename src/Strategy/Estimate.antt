-- ===== src/Strategy/Estimate.antt =====
-- internal/strategy/funding.go: `EstimateFunding`.
-- `clock` stands for `time.Now().UTC()` where the code reads the clock.
pub mod Accepted
pub mod Quantity
pub mod Carry
use arb_bot.Prelude.{
  Bool, ◌||◌, List, [], ◌∷◌, Option, none, some, if◌then◌else◌, ℤ, pos, leb_ℤ, Text,
}
use arb_bot.Clock.{Time, is_zero}
use arb_bot.Float.{Float64, nought, hundred, le, lt, ◌⊕◌, ◌⊖◌, ◌⊗◌, ◌⊘◌}
use arb_bot.Exchange.{Name, Level, OrderBookSnapshot}
use arb_bot.Funding.{Snapshot}
use arb_bot.Strategy.Depth.{vwap_for_quantity, sum_quantity, min_positive, max_float, min_time}
use arb_bot.Strategy.Ident.{new_opportunity_id}

pub record EstimateInput (W : Type 0) : Type 0 where
  pub symbol : Text
  pub long_book : OrderBookSnapshot W
  pub short_book : OrderBookSnapshot W
  pub long_funding : Snapshot W
  pub short_funding : Snapshot W
  pub long_fee_pct : W
  pub short_fee_pct : W
  pub max_notional : W
  pub max_depth_levels : ℤ
  pub basis_risk_pct : W
  pub min_expected_carry_usd : W
  pub min_expected_carry_pct : W
  pub detected_at : Time

pub record Opportunity (W : Type 0) : Type 0 where
  pub id : Text
  pub symbol : Text
  pub long_exchange : Name
  pub short_exchange : Name
  pub quantity : W
  pub long_entry_price : W
  pub short_entry_price : W
  pub expected_carry_usd : W
  pub entry_cost_usd : W
  pub exit_cost_usd : W
  pub basis_risk_buffer_usd : W
  pub expected_net_profit_usd : W
  pub expected_net_profit_pct : W
  pub net_funding_rate_pct : W
  pub detected_at : Time
  pub valid_until : Time
  pub target_funding_time : Time

-- The third result of `EstimateFunding`.
pub data Reason : Type 0 where
  empty_book missing_funding_window invalid_price_or_quantity zero_quantity : Reason
  insufficient_long_depth insufficient_short_depth : Reason
  carry_below_threshold net_profit_not_positive net_profit_pct_below_threshold : Reason

-- `opportunity, true, ""` or `Opportunity{}, false, reason`.
pub data Outcome (W : Type 0) : Type 0 where
  accepted : Opportunity W → Outcome W
  rejected : Reason → Outcome W

module _ {W : Type 0} ⦃f : Float64 W⦄ where
  unfoldable pub depth_of : EstimateInput W → ℤ
  depth_of input = if leb_ℤ input.max_depth_levels (pos 0) then pos 5 else input.max_depth_levels

  unfoldable pub target_quantity : EstimateInput W → Level W → Level W → W
  unfolding depth_of
  target_quantity input ask0 bid0 =
      let max_qty_by_notional = input.max_notional ⊘ max_float ask0.price bid0.price in
      min_positive (
        sum_quantity input.long_book.asks (depth_of input)
        ∷ sum_quantity input.short_book.bids (depth_of input)
        ∷ max_qty_by_notional
        ∷ [])

  -- The amounts that follow from the quantity and the two entry prices, with the id and the times.
  unfoldable pub priced : Time → EstimateInput W → W → W → W → Opportunity W
  priced clock input qty long short =
      let notional = qty ⊗ max_float long short in
      let net_rate =
        input.short_funding.predicted_funding_pct ⊖ input.long_funding.predicted_funding_pct in
      let carry = qty ⊗ input.long_funding.mark_price ⊗ net_rate ⊘ hundred in
      let entry_cost =
        qty ⊗ long ⊗ input.long_fee_pct ⊘ hundred ⊕ qty ⊗ short ⊗ input.short_fee_pct ⊘ hundred in
      let buffer = notional ⊗ input.basis_risk_pct ⊘ hundred in
      let net = carry ⊖ entry_cost ⊖ entry_cost ⊖ buffer in
      let detected = if is_zero input.detected_at then clock else input.detected_at in
      let target =
        min_time input.long_funding.next_funding_time input.short_funding.next_funding_time in
      record {
        id =
            new_opportunity_id input.symbol input.long_book.exchange input.short_book.exchange
              detected;
        symbol = input.symbol;
        long_exchange = input.long_book.exchange;
        short_exchange = input.short_book.exchange;
        quantity = qty;
        long_entry_price = long;
        short_entry_price = short;
        expected_carry_usd = carry;
        entry_cost_usd = entry_cost;
        exit_cost_usd = entry_cost;
        basis_risk_buffer_usd = buffer;
        expected_net_profit_usd = net;
        expected_net_profit_pct = if lt nought notional then net ⊘ notional ⊗ hundred else nought;
        net_funding_rate_pct = net_rate;
        detected_at = detected;
        valid_until = target;
        target_funding_time = target;
      }

  -- The three thresholds.
  unfoldable pub thresholds : EstimateInput W → Opportunity W → Outcome W
  thresholds input o =
      if lt o.expected_carry_usd input.min_expected_carry_usd
      then rejected carry_below_threshold
      else if le o.expected_net_profit_usd nought
      then rejected net_profit_not_positive
      else if lt o.expected_net_profit_pct input.min_expected_carry_pct
      then rejected net_profit_pct_below_threshold
      else accepted o

  unfoldable pub fill_prices : Time → EstimateInput W → W → Outcome W
  fill_prices clock input qty = elim (vwap_for_quantity input.long_book.asks qty (depth_of input)) [
    | none ↦ rejected insufficient_long_depth
    | some long ↦ elim (vwap_for_quantity input.short_book.bids qty (depth_of input)) [
      | none ↦ rejected insufficient_short_depth
      | some short ↦ thresholds input (priced clock input qty long short)
    ]
  ]

  unfoldable pub with_tops : Time → EstimateInput W → Level W → Level W → Outcome W
  with_tops clock input ask0 bid0 =
      let qty = target_quantity input ask0 bid0 in
      if le ask0.price nought
        || le bid0.price nought
        || le ask0.quantity nought
        || le bid0.quantity nought
      then rejected invalid_price_or_quantity
      else if le qty nought
      then rejected zero_quantity
      else fill_prices clock input qty

  -- `asks` and `bids` are those of the two books.
  unfoldable pub estimate_from :
      Time → EstimateInput W → List (Level W) → List (Level W) → Outcome W
  estimate_from clock input (ask0 ∷ _) (bid0 ∷ _) =
      if is_zero input.long_funding.next_funding_time
        || is_zero input.short_funding.next_funding_time
      then rejected missing_funding_window
      else with_tops clock input ask0 bid0
  estimate_from clock input _ _ = rejected empty_book

  unfoldable pub estimate_funding : Time → EstimateInput W → Outcome W
  unfolding estimate_from
  estimate_funding clock input =
      estimate_from clock input input.long_book.asks input.short_book.bids
