-- ===== src/App/Scanner/Unread.antt =====
-- Settings of the configuration that are parsed and that the scanner does not read.
use arb_bot.Prelude.{
  List, range, Option-cases, inl, inr, ◌≡◌, refl, Bool, [], ◌∷◌, Option, none, some, ℤ, Text, Map,
}
use arb_bot.Clock.{Time, Duration}
use arb_bot.Float.{Float64}
use arb_bot.Exchange.{Name, OrderBookSnapshot}
use arb_bot.Funding
use arb_bot.Strategy.Estimate.{Opportunity}
use arb_bot.App.Config.{Config}
use arb_bot.App.Scanner.{
  Scanner, usable, estimate_input, taker_fee_pct, try_short, short_loop, try_long, long_loop,
  best_opportunity, Visit,
}

-- Values for these settings.
pub record Unread (W : Type 0) : Type 0 where
  pub trading_enabled : Bool
  pub max_daily_volume_usd : W
  pub max_daily_loss_usd : W
  pub max_slippage_pct : W
  pub stop_after_consecutive_failures : ℤ
  pub retry_count : ℤ
  pub cancel_unfilled_after : Duration
  pub manual_intervention_on_partial_fill : Bool

module _ {W : Type 0} where
  -- The configuration with other values for them.
  abbrev pub with_unread : Unread W → Config W → Config W
  with_unread x cfg = record cfg {
    trading = record cfg.trading { enabled = x.trading_enabled };
    risk = record cfg.risk {
      max_daily_volume_usd = x.max_daily_volume_usd;
      max_daily_loss_usd = x.max_daily_loss_usd;
      max_slippage_pct = x.max_slippage_pct;
      stop_after_consecutive_failures = x.stop_after_consecutive_failures;
    };
    execution = record cfg.execution {
      retry_count = x.retry_count;
      cancel_unfilled_after = x.cancel_unfilled_after;
      manual_intervention_on_partial_fill = x.manual_intervention_on_partial_fill;
    };
  }

  abbrev pub reset : Unread W → Scanner W → Scanner W
  reset x s = record s { cfg = with_unread x s.cfg }

  abbrev pub reset_option : Unread W → Option (Scanner W) → Option (Scanner W)
  reset_option x none = none
  reset_option x (some s) = some (reset x s)

module _ {W : Type 0} ⦃f : Float64 W⦄ (x : Unread W) (cfg : Config W) (symbol : Text)
    (clock now : Time) (fundings : Map (Funding.Snapshot W)) where
  short_loop-with_unread :
      (long : Name × OrderBookSnapshot W × Funding.Snapshot W) (books : Map (OrderBookSnapshot W))
      (best : Option (Opportunity W))
      → short_loop (with_unread x cfg) symbol clock now fundings long books best
        ≡ short_loop cfg symbol clock now fundings long books best
  unfolding short_loop try_short usable estimate_input taker_fee_pct
  short_loop-with_unread long [] best = refl
  short_loop-with_unread long (short ∷ rest) best =
      short_loop-with_unread long rest (try_short cfg symbol clock now fundings long short best)

  try_long-with_unread :
      (shorts : Name → List Name) (books : Map (OrderBookSnapshot W))
      (long : Name × OrderBookSnapshot W) (best : Option (Opportunity W))
      → try_long (with_unread x cfg) symbol clock now fundings shorts books long best
        ≡ try_long cfg symbol clock now fundings shorts books long best
  unfolding try_long usable
  try_long-with_unread shorts books long best = elim (Option-cases (usable cfg fundings now long)) [
    | inl e ↦ rw (e, try_long) refl
    | inr (funding, e) ↦
        rw (e, try_long)
          (short_loop-with_unread (long.0, long.1, funding) (range (shorts long.0) books) best)
  ]

  long_loop-with_unread :
      (shorts : Name → List Name) (books longs : Map (OrderBookSnapshot W))
      (best : Option (Opportunity W))
      → long_loop (with_unread x cfg) symbol clock now fundings shorts books longs best
        ≡ long_loop cfg symbol clock now fundings shorts books longs best
  unfolding long_loop
  long_loop-with_unread shorts books [] best = refl
  long_loop-with_unread shorts books (long ∷ rest) best =
      rw (try_long-with_unread shorts books long best) (
        long_loop-with_unread shorts books rest
          (try_long cfg symbol clock now fundings shorts books long best))

  pub best_opportunity-with_unread :
      (visit : Visit) (books : Map (OrderBookSnapshot W))
      → best_opportunity (with_unread x cfg) symbol clock now fundings visit books
        ≡ best_opportunity cfg symbol clock now fundings visit books
  unfolding best_opportunity
  best_opportunity-with_unread visit books =
      long_loop-with_unread visit.shorts books (range visit.longs books) none
