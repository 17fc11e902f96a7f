-- ===== src/App/Runtime/Recorded.antt =====
-- The records of the runtime, in every state: positions, log and events.
use arb_bot.Prelude.{◌≡◌, refl, sym, subst, Option, none, some, inl, inr, insert-AllValues}
use mathlib.Core.Option.{some-injective}
use arb_bot.Float.{Float64}
use arb_bot.Exchange.{OrderBookSnapshot}
use arb_bot.Strategy.Estimate.{Opportunity}
use arb_bot.Execution.{Result}
use arb_bot.State.Positions.{add, new_position_book}
use arb_bot.App.Config.{Config}
use arb_bot.App.Scanner.{Scanner, Moment}
use arb_bot.Risk.Approval.{check-approved_iff}
use arb_bot.State.Opportunities.{new_opportunity_log}
use arb_bot.State.Opportunities.Log.{add-All}
use arb_bot.Storage
use arb_bot.Storage.{order_book, position}
use arb_bot.Storage.Queue.{enqueue-All, dequeue-All}
use arb_bot.App.Scanner.Refresh.Accounts.{IsLive}
use arb_bot.App.Scanner.Refresh.Records.{
  IsWorthy, IsApproved, IsRecorded, refresh_positions-IsRecorded,
}
use arb_bot.App.Scanner.Update.{new_position, open_best}
use arb_bot.App.Scanner.Update.Opening.{Opens, try_open-Opens}
use arb_bot.App.Scanner.Update.Frame.{on_order_book_update-parts}
use arb_bot.App.Runtime.{
  new_runtime, store_update, handle_update, handled, written, Reachable, started, stepped,
}

module _ {W : Type 0} ⦃f : Float64 W⦄ where
  new_position-IsLive : (o : Opportunity W) (r : Result W) → IsLive (new_position o r)
  unfolding new_position
  new_position-IsLive o r = record {
    status_eq = refl;
    reason_eq = refl;
    accrued_eq = refl;
    realized_eq = refl;
  }

  Opens-IsRecorded :
      (s : Scanner W) (m : Moment) (o : Opportunity W) (t : Scanner W)
      → Opens s m o t
      → IsRecorded s
      → IsRecorded t
  unfolding add
  Opens-IsRecorded s m o t opens h =
      let p = new_position o opens.result in
      let live = new_position-IsLive o opens.result in
      let approved =
        (check-approved_iff s.risk m.cancelled m.check_clock o).1 (opens.alive, opens.clears) in
      subst IsRecorded (sym opens.scanner_eq) record {
        book = record {
          live = insert-AllValues IsLive p.id p s.positions.held live h.book.live;
          settled = h.book.settled;
        };
        log = add-All IsApproved s.opportunities _ opens.log opens.add_eq approved h.log;
        events =
            enqueue-All IsWorthy _ (position p) (inl live)
              (enqueue-All IsWorthy s.storage _ approved h.events);
      }

  open_best-IsRecorded :
      (s : Scanner W) (m : Moment) (best : Option (Opportunity W)) (t : Scanner W)
      → open_best s m best ≡ some t
      → IsRecorded s
      → IsRecorded t
  unfolding open_best
  open_best-IsRecorded s m none t e h = subst IsRecorded (some-injective _ _ e) h
  open_best-IsRecorded s m (some o) t e h = elim (try_open-Opens s m o t e) [
    | inl same ↦ subst IsRecorded (sym same) h
    | inr opens ↦ Opens-IsRecorded s m o t opens h
  ]

  handle_update-IsRecorded :
      (s : Scanner W) (m : Moment) (update : OrderBookSnapshot W) (t : Scanner W)
      → handle_update s m update ≡ some t
      → IsRecorded s
      → IsRecorded t
  unfolding handle_update store_update
  handle_update-IsRecorded s m update t e h =
      let s' = store_update s m update in
      let stored : IsRecorded s' = record {
        book = h.book;
        log = h.log;
        events = enqueue-All IsWorthy s.storage (order_book update) tt h.events;
      } in
      let (mid, opened, refreshed) = on_order_book_update-parts s' m update t e in
      subst IsRecorded (sym refreshed) (
        refresh_positions-IsRecorded update.symbol _ _ update.updated_at mid
          (open_best-IsRecorded s' m _ mid opened stored))

  new_runtime-IsRecorded : (cfg : Config W) → IsRecorded (new_runtime cfg)
  unfolding new_runtime new_position_book new_opportunity_log Storage.new_store
  new_runtime-IsRecorded cfg = record {
    book = record { live = tt; settled = tt };
    log = tt;
    events = tt;
  }

  -- In every state that the runtime reaches: an open position has realized nothing and has no reason to
  -- be closed; each position of the history is closed, at its last update, and its accounts follow from
  -- its own legs and quantity: one that lost its carry has realized the gain of its prices, and one that
  -- captured its funding or reached its hold time has accrued the expected carry and realized both; the
  -- log, and the events for Redis, hold only opportunities that were approved; and each position among
  -- these events is open or closed by such accounts.
  pub Reachable-IsRecorded : (cfg : Config W) (s : Scanner W) → Reachable cfg s → IsRecorded s
  Reachable-IsRecorded cfg s (started e) = subst IsRecorded (sym e) (new_runtime-IsRecorded cfg)
  Reachable-IsRecorded cfg s (stepped {s = before} path (handled m update e)) =
      handle_update-IsRecorded before m update s e (Reachable-IsRecorded cfg before path)
  Reachable-IsRecorded cfg s (stepped {s = before} path (written event rest e same)) =
      let h = Reachable-IsRecorded cfg before path in
      subst IsRecorded (sym same) record {
        book = h.book;
        log = h.log;
        events = (dequeue-All IsWorthy before.storage event rest e h.events).1;
      }
