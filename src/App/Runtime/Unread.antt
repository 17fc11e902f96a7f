-- ===== src/App/Runtime/Unread.antt =====
-- The limits of the configuration that no part of the runtime reads.
use arb_bot.Prelude.{◌≡◌, refl, sym, ap, ◌∙◌, List}
use arb_bot.Float.{Float64}
use arb_bot.Exchange.{OrderBookSnapshot}
use arb_bot.App.Config.{Config}
use arb_bot.App.Scanner.{Scanner, Moment}
use arb_bot.App.Scanner.Unread.{Unread, with_unread, reset, reset_option}
use arb_bot.App.Scanner.Update.Unread.{on_order_book_update-reset}
use arb_bot.App.Runtime.{new_runtime, build_connectors, store_update, handle_update, server_config}
use arb_bot.App.Runtime.Trace.{Trace, began, took, wrote}

module _ {W : Type 0} ⦃f : Float64 W⦄ (x : Unread W) where
  handle_update-reset :
      (s : Scanner W) (m : Moment) (update : OrderBookSnapshot W)
      → handle_update (reset x s) m update ≡ reset_option x (handle_update s m update)
  unfolding handle_update store_update
  handle_update-reset s m update = on_order_book_update-reset x (store_update s m update) m update

  new_runtime-reset : (cfg : Config W) → new_runtime (with_unread x cfg) ≡ reset x (new_runtime cfg)
  unfolding new_runtime build_connectors
  new_runtime-reset cfg = refl

  Trace-reset :
      (cfg : Config W) (seen : List (Moment × OrderBookSnapshot W)) (s : Scanner W)
      → Trace cfg seen s
      → Trace (with_unread x cfg) seen (reset x s)
  Trace-reset cfg seen s (began e) = began (ap (reset x) e ∙ sym (new_runtime-reset cfg))
  Trace-reset cfg seen s (took {s = before} {seen = earlier} m update run e) =
      took m update (Trace-reset cfg earlier before run)
        (handle_update-reset before m update ∙ ap (reset_option x) e)
  Trace-reset cfg seen s (wrote {s = before} event rest run e same) =
      wrote event rest (Trace-reset cfg seen before run) e (ap (reset x) same)

  -- `trading.enabled`, the limits on the daily volume, the daily loss and the slippage, the stop after
  -- failures, and the retry, cancel and manual intervention settings have no effect: for any other
  -- values of them, each run of the runtime is a run with the same updates, in a state with the same
  -- stores, positions, log and queue; and the API answers from the same data.
  pub Trace-with_unread :
      (cfg : Config W) (seen : List (Moment × OrderBookSnapshot W)) (s : Scanner W)
      → Trace cfg seen s
      → Trace (with_unread x cfg) seen (reset x s)
        × (server_config (with_unread x cfg) (reset x s) ≡ server_config cfg s)
  unfolding server_config build_connectors
  Trace-with_unread cfg seen s run = (Trace-reset cfg seen s run, refl)
