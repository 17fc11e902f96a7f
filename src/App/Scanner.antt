-- ===== src/App/Scanner.antt =====
-- internal/app/scanner.go: the reaction to an order book.
pub mod Refresh
pub mod Best
pub mod Found
pub mod Update
pub mod Unread
use arb_bot.Prelude.{
  range, Bool, true, false, not, ◌&&◌, ◌||◌, List, [], ◌∷◌, Option, none, some, ◌==◌, text_eq,
  if◌then◌else◌, ℤ, ltb_ℤ, leb_ℤ, pos, Text, codes, Map, lookup,
}
use arb_bot.Clock.{Time, Duration, before, sub_time, zero_time}
use arb_bot.Float.{Float64, decimal, nought, le, lt, ◌⊕◌, ◌⊖◌, ◌⊗◌}
use arb_bot.Exchange.{Name, Level, OrderSide, OrderBookSnapshot}
use arb_bot.MarketData
use arb_bot.MarketData.{is_fresh}
use arb_bot.Funding
use arb_bot.Strategy.Estimate.{
  EstimateInput, Opportunity, Outcome, accepted, rejected, estimate_funding,
}
use arb_bot.Risk
use arb_bot.Risk.{check}
use arb_bot.Execution
use arb_bot.Execution.{Engine, execute, executed, failed}
use arb_bot.State.Positions
use arb_bot.State.Positions.{
  Leg, Position, position_open, position_closed, PositionBook, has_open, open_positions_by_symbol,
}
use arb_bot.State.Opportunities
use arb_bot.State.Opportunities.{OpportunityRecord, OpportunityLog}
use arb_bot.Storage
use arb_bot.Storage.{enqueue, opportunity, position}
use arb_bot.App.Config.{Config}

pub record ScannerConfig (W : Type 0) : Type 0 where
  pub config : Config W
  pub books : MarketData.Store W
  pub funding : Funding.Store W
  pub risk : Risk.Config W
  pub execution : Engine W
  pub opportunities : OpportunityLog W
  pub positions : PositionBook W
  pub storage : Storage.Store W

-- The estimator has no fields, and the engine of the checks is its configuration.
pub record Scanner (W : Type 0) : Type 0 where
  pub cfg : Config W
  pub books : MarketData.Store W
  pub funding : Funding.Store W
  pub risk : Risk.Config W
  pub engine : Engine W
  pub opportunities : OpportunityLog W
  pub positions : PositionBook W
  pub storage : Storage.Store W

abbrev pub new_scanner : {W : Type 0} → ScannerConfig W → Scanner W
new_scanner c = record {
  cfg = c.config;
  books = c.books;
  funding = c.funding;
  risk = c.risk;
  engine = c.execution;
  opportunities = c.opportunities;
  positions = c.positions;
  storage = c.storage;
}

-- The orders in which the two loops of `bestOpportunity` visit the books, the inner one anew for each
-- long exchange.
pub record Visit : Type 0 where
  pub longs : List Name
  pub shorts : Name → List Name

-- What one call reads from outside: whether the context is done, the clock at the funding
-- snapshot, at the estimate, at the check and around the execution, the side whose order is
-- answered first, and the orders of the visits.
pub record Moment : Type 0 where
  pub cancelled : Bool
  pub funding_clock : Time
  pub estimate_clock : Time
  pub check_clock : Time
  pub started : Time
  pub finished : Time
  pub first : OrderSide
  pub visit : Visit

module _ {W : Type 0} ⦃f : Float64 W⦄ where
  unfoldable pub taker_fee_pct : Config W → Name → W
  taker_fee_pct cfg name = elim (lookup name cfg.fees) [
    | none ↦ decimal (pos 10) 2
    | some fee ↦ fee.taker_pct
  ]

  unfoldable pub estimate_input :
      Config W
      → Text
      → Time
      → Name × OrderBookSnapshot W × Funding.Snapshot W
      → Name × OrderBookSnapshot W × Funding.Snapshot W
      → EstimateInput W
  estimate_input cfg symbol now (long, long_book, long_funding) (short, short_book, short_funding) =
      record {
        symbol = symbol;
        long_book = long_book;
        short_book = short_book;
        long_funding = long_funding;
        short_funding = short_funding;
        long_fee_pct = taker_fee_pct cfg long;
        short_fee_pct = taker_fee_pct cfg short;
        max_notional = cfg.risk.max_trade_usd;
        max_depth_levels = cfg.strategy.max_depth_levels;
        basis_risk_pct = cfg.strategy.basis_risk_pct;
        min_expected_carry_usd = cfg.strategy.min_expected_carry_usd;
        min_expected_carry_pct = cfg.strategy.min_expected_carry_pct;
        detected_at = now;
      }

  -- `best` with `found`: a strictly larger net profit replaces it.
  unfoldable pub keep_best : Option (Opportunity W) → Outcome W → Option (Opportunity W)
  keep_best best (rejected _) = best
  keep_best none (accepted o) = some o
  keep_best (some b) (accepted o) =
      if lt b.expected_net_profit_usd o.expected_net_profit_usd then some o else some b

  -- The guards of either loop: a fresh book with a funding snapshot.
  unfoldable pub usable :
      Config W
      → Map (Funding.Snapshot W)
      → Time
      → Name × OrderBookSnapshot W
      → Option (Funding.Snapshot W)
  usable cfg fundings now (name, book) =
      if is_fresh book cfg.risk.max_order_book_age now then lookup name fundings else none

  module _ (cfg : Config W) (symbol : Text) (clock now : Time)
      (fundings : Map (Funding.Snapshot W)) where
    -- One round of the inner loop.
    try_short :
        Name × OrderBookSnapshot W × Funding.Snapshot W
        → Name × OrderBookSnapshot W
        → Option (Opportunity W)
        → Option (Opportunity W)
    unfolding usable
    try_short (long, long_book, long_funding) (short, short_book) best =
        if long == short then best else elim (usable cfg fundings now (short, short_book)) [
          | none ↦ best
          | some short_funding ↦ keep_best best (
              estimate_funding clock (
                estimate_input cfg symbol now (long, long_book, long_funding)
                  (short, short_book, short_funding)))
        ]

    short_loop :
        Name × OrderBookSnapshot W × Funding.Snapshot W
        → Map (OrderBookSnapshot W)
        → Option (Opportunity W)
        → Option (Opportunity W)
    short_loop long [] best = best
    short_loop long (short ∷ rest) best = short_loop long rest (try_short long short best)

    -- One round of the outer loop.
    try_long :
        (Name → List Name)
        → Map (OrderBookSnapshot W)
        → Name × OrderBookSnapshot W
        → Option (Opportunity W)
        → Option (Opportunity W)
    unfolding usable
    try_long shorts books (long, long_book) best =
        elim (usable cfg fundings now (long, long_book)) [
          | none ↦ best
          | some long_funding ↦
              short_loop (long, long_book, long_funding) (range (shorts long) books) best
        ]

    long_loop :
        (Name → List Name)
        → Map (OrderBookSnapshot W)
        → Map (OrderBookSnapshot W)
        → Option (Opportunity W)
        → Option (Opportunity W)
    long_loop shorts books [] best = best
    long_loop shorts books (long ∷ rest) best =
        long_loop shorts books rest (try_long shorts books long best)

    unfoldable pub best_opportunity : Visit → Map (OrderBookSnapshot W) → Option (Opportunity W)
    unfolding long_loop try_long short_loop try_short
    best_opportunity visit books = long_loop visit.shorts books (range visit.longs books) none
