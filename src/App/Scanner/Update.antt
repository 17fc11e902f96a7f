-- ===== src/App/Scanner/Update.antt =====
-- internal/app/scanner.go: `OnOrderBookUpdate`. `none` is a panic of the opportunity log.
pub mod Frame
pub mod Unread
pub mod Invariant
pub mod Opening
use arb_bot.Prelude.{Bool, true, false, List, [], ◌∷◌, Option, none, some, if◌then◌else◌, Text, Map}
use arb_bot.Clock.{Time, zero_time}
use arb_bot.Float.{Float64, nought}
use arb_bot.Exchange.{Name, OrderBookSnapshot}
use arb_bot.MarketData
use arb_bot.Funding
use arb_bot.Strategy.Estimate.{Opportunity}
use arb_bot.Risk.{Decision, check}
use arb_bot.Execution.{Result, Outcome, execute, executed, failed}
use arb_bot.State.Positions
use arb_bot.State.Positions.{Leg, Position, position_open, has_open}
use arb_bot.State.Opportunities
use arb_bot.State.Opportunities.{OpportunityRecord}
use arb_bot.Storage.{enqueue, opportunity, position}
use arb_bot.App.Scanner.{Scanner, Moment, best_opportunity}
use arb_bot.App.Scanner.Refresh.{refresh_positions}

module _ {W : Type 0} ⦃f : Float64 W⦄ where
  abbrev new_leg : Name → W → Leg W
  new_leg name price = record {
    exchange = name;
    entry_price = price;
    exit_price = nought;
    fee_usd = nought;
  }

  unfoldable pub new_position : Opportunity W → Result W → Position W
  new_position best result = record {
    id = best.id;
    symbol = best.symbol;
    long_leg = new_leg best.long_exchange best.long_entry_price;
    short_leg = new_leg best.short_exchange best.short_entry_price;
    quantity = best.quantity;
    status = position_open;
    opened_at = result.started_at;
    closed_at = zero_time;
    target_funding_time = best.target_funding_time;
    expected_carry_usd = best.expected_carry_usd;
    accrued_funding_usd = nought;
    realized_pnl_usd = nought;
    unrealized_pnl_usd = nought;
    close_reason = [];
    last_updated_at = result.finished_at;
  }

  -- An execution that gave no error: the position, the log entry and the two events.
  unfoldable pub record_open : Scanner W → Opportunity W → Decision → Result W → Option (Scanner W)
  record_open s best decision result =
      let p = new_position best result in
      let entry : OpportunityRecord W = record {
        opportunity = best;
        decision = decision;
        execution = result;
      } in
      elim (Opportunities.add s.opportunities entry) [
        | none ↦ none
        | some log ↦ some (record s {
          positions = Positions.add s.positions p;
          opportunities = log;
          storage = enqueue (enqueue s.storage (opportunity entry)) (position p);
        })
      ]

  unfoldable pub try_open : Scanner W → Moment → Opportunity W → Option (Scanner W)
  try_open s m best =
      let decision = check s.risk m.cancelled m.check_clock best in
      if has_open s.positions best.symbol best.long_exchange best.short_exchange
      then some s
      else if decision.approved
      then elim (execute s.engine m.first m.started m.finished best) [
        | failed _ ↦ some s
        | executed result ↦ record_open s best decision result
      ]
      else some s

  unfoldable pub open_best : Scanner W → Moment → Option (Opportunity W) → Option (Scanner W)
  open_best s m none = some s
  open_best s m (some best) = try_open s m best

  unfoldable pub on_order_book_update :
      Scanner W → Moment → OrderBookSnapshot W → Option (Scanner W)
  on_order_book_update s m update =
      let books = MarketData.snapshot s.books update.symbol in
      let fundings = Funding.snapshot s.funding update.symbol in
      let now = update.updated_at in
      elim (open_best s m
        (best_opportunity s.cfg update.symbol m.estimate_clock now fundings m.visit books)) [
          | none ↦ none
          | some s' ↦ some (refresh_positions update.symbol books fundings now s')
        ]
