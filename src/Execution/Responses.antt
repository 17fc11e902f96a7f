-- ===== src/Execution/Responses.antt =====
-- The two responses of a live execution, in either order.
use arb_bot.Prelude.{◌≡◌, refl, Option, none, some, arith, lookup, text_beq_iff}
use arb_bot.Clock.{Time}
use arb_bot.Float.{Float64}
use arb_bot.Exchange.{OrderSide, buy, sell, OrderResult, Error, Connector}
use arb_bot.Strategy.Estimate.{Opportunity}
use arb_bot.Execution.{
  Engine, Result, executed, mode_live, Status, needs_reconcile, live_open, no_order, order_request,
  place_both, execute,
}

-- Open when neither order gave an error.
abbrev pub live_status : Option Error → Option Error → Status
live_status none none = live_open
live_status _ _ = needs_reconcile

module _ {W : Type 0} ⦃f : Float64 W⦄ where
  -- The order in which the responses arrive does not show in the result.
  pub execute-arrival :
      (e : Engine W) (started finished : Time) (o : Opportunity W)
      → execute e buy started finished o ≡ execute e sell started finished o
  unfolding execute place_both
  execute-arrival e started finished o = ground arith

  -- The reply of a connector that gives no error, and else an empty result.
  abbrev pub reply : OrderResult W × Option Error → OrderResult W
  reply (r, none) = r
  reply (r, some _) = no_order

  place_both_lem :
      (e : Engine W) (first : OrderSide) (started finished : Time) (o : Opportunity W)
      (long short : Connector W)
      → let on_long = long.place_order (order_request e o buy) in
        let on_short = short.place_order (order_request e o sell) in
        let r = place_both e first started finished o long short in
        (r.long_order ≡ reply on_long)
        × (r.short_order ≡ reply on_short)
        × (r.status ≡ live_status on_long.1 on_short.1)
  unfolding place_both
  place_both_lem e first started finished o long short = ground arith

  -- In the live mode with both connectors, each leg holds the reply of its connector to an order for
  -- that leg, or nothing where the connector gave an error. The result is open if neither gave one,
  -- and needs reconciling otherwise.
  pub execute-live :
      (e : Engine W) (first : OrderSide) (started finished : Time) (o : Opportunity W)
      {long short : Connector W}
      → e.mode ≡ mode_live
      → lookup o.long_exchange e.connectors ≡ some long
      → lookup o.short_exchange e.connectors ≡ some short
      → let on_long = long.place_order (order_request e o buy) in
        let on_short = short.place_order (order_request e o sell) in
        (r : Result W) × (execute e first started finished o ≡ executed r)
        × (r.long_order ≡ reply on_long)
        × (r.short_order ≡ reply on_short)
        × (r.status ≡ live_status on_long.1 on_short.1)
  unfolding execute
  execute-live e first started finished o {long} {short} h p q =
      let (l, s, st) = place_both_lem e first started finished o long short in
      rw ((text_beq_iff e.mode mode_live).1 h, p, q) (_, refl, l, s, st)
