-- ===== src/Risk.antt =====
-- internal/risk/engine.go: the checks before an order. `cancelled` says whether the context is done,
-- and `clock` stands for `time.Now()`.
pub mod Approval
pub mod Limits
use arb_bot.Prelude.{
  Bool, true, false, ◌&&◌, List, [], ◌∷◌, ◌++◌, if◌then◌else◌, ◌==◌, text_eq, ℤ, pos, ltb_ℤ,
}
use arb_bot.Clock.{Time, Duration, is_zero, sub_time}
use arb_bot.Float.{Float64, nought, le, lt, ◌⊗◌}
use arb_bot.Strategy.Estimate.{Opportunity}

pub record Config (W : Type 0) : Type 0 where
  pub max_trade_usd : W
  pub min_profit_usd : W
  pub min_profit_pct : W
  pub min_time_to_funding : Duration

pub data Reason : Type 0 where
  context_canceled notional_not_positive notional_exceeds_limit : Reason
  profit_below_minimum profit_pct_below_minimum same_exchange quantity_not_positive : Reason
  funding_time_missing funding_window_too_close funding_rate_not_positive : Reason

pub record Decision : Type 0 where
  pub approved : Bool
  pub reasons : List Reason
  pub checked_at : Time

-- `if test { reasons = append(reasons, reason) }`
unfoldable pub add_if : Bool → Reason → List Reason → List Reason
add_if test reason reasons = if test then reasons ++ reason ∷ [] else reasons

-- `len(reasons) == 0`
unfoldable pub is_empty : List Reason → Bool
is_empty [] = true
is_empty (_ ∷ _) = false

module _ {W : Type 0} ⦃f : Float64 W⦄ where
  -- The tests in the order of the code.
  abbrev pub notional : Opportunity W → W
  notional o = o.quantity ⊗ o.long_entry_price

  abbrev pub over_limit : Config W → Opportunity W → Bool
  over_limit cfg o = lt nought cfg.max_trade_usd && lt cfg.max_trade_usd (notional o)

  abbrev pub too_close : Config W → Time → Opportunity W → Bool
  too_close cfg clock o =
      ltb_ℤ (pos 0) cfg.min_time_to_funding
      && ltb_ℤ (sub_time o.target_funding_time clock) cfg.min_time_to_funding

  unfoldable pub collect : Config W → Time → Opportunity W → List Reason
  collect cfg clock o =
      let r1 = add_if (le (notional o) nought) notional_not_positive [] in
      let r2 = add_if (over_limit cfg o) notional_exceeds_limit r1 in
      let r3 = add_if (lt o.expected_net_profit_usd cfg.min_profit_usd) profit_below_minimum r2 in
      let r4 =
        add_if (lt o.expected_net_profit_pct cfg.min_profit_pct) profit_pct_below_minimum r3 in
      let r5 = add_if (o.long_exchange == o.short_exchange) same_exchange r4 in
      let r6 = add_if (le o.quantity nought) quantity_not_positive r5 in
      let r7 = add_if (is_zero o.target_funding_time) funding_time_missing r6 in
      let r8 = add_if (too_close cfg clock o) funding_window_too_close r7 in
      add_if (le o.net_funding_rate_pct nought) funding_rate_not_positive r8

  unfoldable pub check : Config W → Bool → Time → Opportunity W → Decision
  check cfg cancelled clock o =
      if cancelled
      then record { approved = false; reasons = context_canceled ∷ []; checked_at = clock }
      else record {
        approved = is_empty (collect cfg clock o);
        reasons = collect cfg clock o;
        checked_at = clock;
      }
