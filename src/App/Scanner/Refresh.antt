-- ===== src/App/Scanner/Refresh.antt =====
-- internal/app/scanner.go: `refreshPositions`.
pub mod Decision
pub mod Frame
pub mod Unread
pub mod Accounts
pub mod Records
pub mod Loop
pub mod Once
use arb_bot.Prelude.{
  Bool, true, false, not, ◌&&◌, ◌||◌, List, [], ◌∷◌, Option, none, some, if◌then◌else◌, ltb_ℤ, Text,
  codes, Map, lookup, ◌>>=◌,
}
use arb_bot.Clock.{Time, Duration, before, sub_time}
use arb_bot.Float.{Float64, nought, le, ◌⊕◌, ◌⊖◌, ◌⊗◌}
use arb_bot.Exchange.{Name, Level, OrderBookSnapshot}
use arb_bot.Funding
use arb_bot.State.Positions
use arb_bot.State.Positions.{Position, position_closed, open_positions_by_symbol}
use arb_bot.Storage.{enqueue, position}
use arb_bot.App.Scanner.{Scanner}

abbrev pub carry_deteriorated : Text
carry_deteriorated = codes "carry_deteriorated"

abbrev pub max_hold_time : Text
max_hold_time = codes "max_hold_time"

abbrev pub funding_captured : Text
funding_captured = codes "funding_captured"

-- What one round of the loop does with a position.
pub data Refreshed (W : Type 0) : Type 0 where
  skipped : Refreshed W
  kept : Position W → Refreshed W
  ended : Position W → Refreshed W

-- The first level of a side.
abbrev pub top {ℓ} : {A : Type ℓ} → List A → Option A
top [] = none
top (l ∷ _) = some l

module _ {W : Type 0} ⦃f : Float64 W⦄ where
  -- `unrealized`, from the prices at which the legs would be left.
  unfoldable pub unrealized : Position W → W → W → W
  unrealized p exit_long exit_short =
      (exit_long ⊖ p.long_leg.entry_price) ⊗ p.quantity
      ⊕ (p.short_leg.entry_price ⊖ exit_short) ⊗ p.quantity

  -- The fields that both ways of closing set alike.
  abbrev pub closing : Time → W → W → Position W → Position W
  closing now exit_long exit_short p = record p {
    status = position_closed;
    closed_at = now;
    long_leg = record p.long_leg { exit_price = exit_long };
    short_leg = record p.short_leg { exit_price = exit_short };
  }

  -- The position with its new mark, and then the decision to keep or to close it.
  unfoldable pub decide : Duration → Time → W → W → W → Position W → Refreshed W
  decide max_hold now exit_long exit_short net_funding_pct p0 =
      let gain = unrealized p0 exit_long exit_short in
      let p = record p0 { unrealized_pnl_usd = gain; last_updated_at = now } in
      let held_for = sub_time now p.opened_at in
      if le net_funding_pct nought
      then ended (record (closing now exit_long exit_short p) {
        realized_pnl_usd = gain;
        close_reason = carry_deteriorated;
      })
      else if before now p.target_funding_time && ltb_ℤ held_for max_hold
      then kept p
      else ended (record (closing now exit_long exit_short p) {
        accrued_funding_usd = p.expected_carry_usd;
        realized_pnl_usd = gain ⊕ p.expected_carry_usd;
        close_reason = if ltb_ℤ held_for max_hold then funding_captured else max_hold_time;
      })

  -- The two exit prices and the funding difference, where the books and snapshots are there.
  unfoldable pub exits :
      Map (OrderBookSnapshot W) → Map (Funding.Snapshot W) → Position W → Option (W × W × W)
  exits books fundings p = do
    long_book ← lookup p.long_leg.exchange books
    short_book ← lookup p.short_leg.exchange books
    long_funding ← lookup p.long_leg.exchange fundings
    short_funding ← lookup p.short_leg.exchange fundings
    bid ← top long_book.bids
    ask ← top short_book.asks
    some (
      bid.price,
      ask.price,
      short_funding.predicted_funding_pct ⊖ long_funding.predicted_funding_pct,
    )

  abbrev decide_at : Duration → Time → Position W → Option (W × W × W) → Refreshed W
  decide_at max_hold now p none = skipped
  decide_at max_hold now p (some (exit_long, exit_short, net)) =
      decide max_hold now exit_long exit_short net p

  unfoldable pub refresh_position :
      Duration
      → Map (OrderBookSnapshot W)
      → Map (Funding.Snapshot W)
      → Time
      → Position W
      → Refreshed W
  refresh_position max_hold books fundings now p = decide_at max_hold now p (exits books fundings p)

  unfoldable pub apply_refreshed : Scanner W → Refreshed W → Scanner W
  apply_refreshed s skipped = s
  apply_refreshed s (kept p) = record s { positions = Positions.update s.positions p }
  apply_refreshed s (ended p) = record s {
    positions = Positions.close s.positions p;
    storage = enqueue s.storage (position p);
  }

  refresh_loop :
      Duration
      → Map (OrderBookSnapshot W)
      → Map (Funding.Snapshot W)
      → Time
      → List (Position W)
      → Scanner W
      → Scanner W
  refresh_loop max_hold books fundings now [] s = s
  refresh_loop max_hold books fundings now (p ∷ ps) s =
      refresh_loop max_hold books fundings now ps
        (apply_refreshed s (refresh_position max_hold books fundings now p))

  unfoldable pub refresh_positions :
      Text → Map (OrderBookSnapshot W) → Map (Funding.Snapshot W) → Time → Scanner W → Scanner W
  unfolding refresh_loop
  refresh_positions symbol books fundings now s =
      refresh_loop s.cfg.strategy.max_hold_time books fundings now
        (open_positions_by_symbol s.positions symbol) s
