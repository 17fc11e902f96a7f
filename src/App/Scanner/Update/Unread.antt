-- ===== src/App/Scanner/Update/Unread.antt =====
-- The reaction to an order book does not read the settings.
use arb_bot.Prelude.{
  ◌⊎◌, ◌≡◌, refl, ◌∙◌, ap, Option, none, some, Option-cases, Bool-cases, inl, inr, Text, Map,
}
use arb_bot.Clock.{Time}
use arb_bot.Float.{Float64}
use arb_bot.Exchange.{Error, OrderBookSnapshot}
use arb_bot.MarketData
use arb_bot.Funding
use arb_bot.Strategy.Estimate.{Opportunity}
use arb_bot.Risk.{Decision, check}
use arb_bot.Execution.{Outcome, Result, executed, failed, execute}
use arb_bot.State.Opportunities
use arb_bot.State.Positions.{has_open}
use arb_bot.App.Scanner.{Scanner, Moment, best_opportunity}
use arb_bot.App.Scanner.Unread.{Unread, reset, reset_option, best_opportunity-with_unread}
use arb_bot.App.Scanner.Refresh.{refresh_positions}
use arb_bot.App.Scanner.Refresh.Unread.{refresh_positions-reset}
use arb_bot.App.Scanner.Update.{record_open, try_open, open_best, on_order_book_update}

Outcome-cases :
    {W : Type 0} (out : Outcome W)
    → ((e : Error) × (out ≡ failed e)) ⊎ ((r : Result W) × (out ≡ executed r))
Outcome-cases (failed e) = inl (e, refl)
Outcome-cases (executed r) = inr (r, refl)

module _ {W : Type 0} ⦃f : Float64 W⦄ (x : Unread W) where
  record_open-reset :
      (s : Scanner W) (o : Opportunity W) (d : Decision) (r : Result W)
      → record_open (reset x s) o d r ≡ reset_option x (record_open s o d r)
  unfolding record_open
  record_open-reset s o d r =
      elim (Option-cases (
        Opportunities.add s.opportunities
          (record { opportunity = o; decision = d; execution = r }))) [
            | inl e ↦ rw (e, record_open) refl
            | inr (log, e) ↦ rw (e, record_open) refl
          ]

  try_open-reset :
      (s : Scanner W) (m : Moment) (o : Opportunity W)
      → try_open (reset x s) m o ≡ reset_option x (try_open s m o)
  unfolding try_open
  try_open-reset s m o =
      elim (Bool-cases (has_open s.positions o.symbol o.long_exchange o.short_exchange)) [
        | inl e ↦ rw (e, try_open) refl
        | inr e ↦ elim (Bool-cases (check s.risk m.cancelled m.check_clock o).approved) [
          | inr refused ↦ rw (e, refused, try_open) refl
          | inl allowed ↦ elim (Outcome-cases (execute s.engine m.first m.started m.finished o)) [
            | inl (err, k) ↦ rw (e, allowed, k, try_open) refl
            | inr (r, k) ↦
                rw (e, allowed, k, try_open)
                  (record_open-reset s o (check s.risk m.cancelled m.check_clock o) r)
          ]
        ]
      ]

  open_best-reset :
      (s : Scanner W) (m : Moment) (best : Option (Opportunity W))
      → open_best (reset x s) m best ≡ reset_option x (open_best s m best)
  unfolding open_best
  open_best-reset s m none = refl
  open_best-reset s m (some o) = try_open-reset s m o

  -- What an update does after the attempt to open a position.
  abbrev finish :
      Text
      → Map (OrderBookSnapshot W)
      → Map (Funding.Snapshot W)
      → Time
      → Option (Scanner W)
      → Option (Scanner W)
  finish symbol books fundings now none = none
  finish symbol books fundings now (some s) = some (refresh_positions symbol books fundings now s)

  finish-reset :
      (symbol : Text) (books : Map (OrderBookSnapshot W)) (fundings : Map (Funding.Snapshot W))
      (now : Time) (o : Option (Scanner W))
      → finish symbol books fundings now (reset_option x o)
        ≡ reset_option x (finish symbol books fundings now o)
  finish-reset symbol books fundings now none = refl
  finish-reset symbol books fundings now (some s) =
      ap some (refresh_positions-reset x symbol books fundings now s)

  pub on_order_book_update-reset :
      (s : Scanner W) (m : Moment) (update : OrderBookSnapshot W)
      → on_order_book_update (reset x s) m update ≡ reset_option x (on_order_book_update s m update)
  unfolding on_order_book_update
  on_order_book_update-reset s m update =
      let books = MarketData.snapshot s.books update.symbol in
      let fundings = Funding.snapshot s.funding update.symbol in
      let now = update.updated_at in
      let best = best_opportunity s.cfg update.symbol m.estimate_clock now fundings m.visit books in
      ap (λ b. finish update.symbol books fundings now (open_best (reset x s) m b))
        (best_opportunity-with_unread x s.cfg update.symbol m.estimate_clock now fundings m.visit
          books)
      ∙ ap (finish update.symbol books fundings now) (open_best-reset s m best)
      ∙ finish-reset update.symbol books fundings now (open_best s m best)
