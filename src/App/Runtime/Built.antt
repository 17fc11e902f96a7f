-- ===== src/App/Runtime/Built.antt =====
-- The connectors of the runtime: which exchanges have one, and what a live execution does with them.
use arb_bot.Prelude.{
  ◌≡◌, refl, sym, ap, ◌∙◌, Bool, false, ◌&&◌, ◌||◌, List, [], ◌∷◌, Option, none, some, Option-cases,
  Bool-cases, inl, inr, arith, ◌==◌, text_eq, text_beq_iff, if◌then◌else◌, Map, lookup,
  lookup-insert,
}
use arb_bot.Float.{Float64}
use arb_bot.Clock.{Time}
use arb_bot.Exchange.{
  Name, bybit, okx, htx, kucoin, Connector, OrderRequest, OrderSide, Error, buy, sell,
}
use arb_bot.Exchange.Adapters.{new_bybit, new_okx, new_htx, new_kucoin}
use arb_bot.Exchange.Stub.{public_ws_connector, live_trading_not_implemented}
use arb_bot.Strategy.Estimate.{Opportunity}
use arb_bot.Execution.{
  Engine, Result, Outcome, executed, failed, execute, mode_live, needs_reconcile, no_order,
  order_request,
}
use arb_bot.Execution.Modes.{execute-live_iff}
use arb_bot.Execution.Responses.{execute-live, reply, live_status}
use arb_bot.State.Positions
use arb_bot.State.Positions.{Position, position_open}
use arb_bot.App.Config.{Config, ExchangeConfig}
use arb_bot.App.Scanner.{Scanner, Moment}
use arb_bot.App.Scanner.Update.{new_position}
use arb_bot.App.Scanner.Update.Opening.{Opens}
use arb_bot.App.Runtime.{all_connectors, is_enabled, enabled_of, build_connectors, new_runtime}
use arb_bot.App.Runtime.Invariant.{IsSafe}

-- The exchange is one of these.
abbrev pub is_one_of : Name → List Name → Bool
is_one_of name [] = false
is_one_of name (x ∷ xs) = x == name || is_one_of name xs

live_status-some :
    (a b : Option Error) {err : Error} → a ≡ some err → live_status a b ≡ needs_reconcile
live_status-some a b e = rw e refl

module _ {W : Type 0} ⦃f : Float64 W⦄ where
  lookup-enabled_of :
      (exchanges : Map ExchangeConfig) (connectors : Map (Connector W)) (name : Name)
      → lookup name (enabled_of exchanges connectors)
        ≡ (if is_enabled exchanges name then lookup name connectors else none)
  unfolding enabled_of lookup
  lookup-enabled_of exchanges [] name = ground arith
  lookup-enabled_of exchanges ((x, c) ∷ rest) name = elim (Bool-cases (x == name)) [
    | inl same ↦
        let e = (text_beq_iff x name).0 same in
        rw e (ground (arith, lookup-enabled_of exchanges rest name, text_beq_iff name name))
    | inr other ↦ ground (arith, other, lookup-enabled_of exchanges rest name)
  ]

  lookup-all_connectors :
      (name : Name)
      → lookup name all_connectors ≡ (
          if is_one_of name (bybit ∷ okx ∷ htx ∷ kucoin ∷ [])
          then some (public_ws_connector {W = W} name)
          else none)
  unfolding all_connectors lookup new_bybit new_okx new_htx new_kucoin
  lookup-all_connectors name = ground (
    arith,
    text_beq_iff bybit name,
    text_beq_iff okx name,
    text_beq_iff htx name,
    text_beq_iff kucoin name,
  )

  -- An exchange has a connector exactly when it is one of the four and the configuration enables it; and
  -- the connector is the public one of that name.
  pub lookup-build_connectors :
      (cfg : Config W) (name : Name)
      → lookup name (build_connectors cfg) ≡ (
          if is_enabled cfg.exchanges name && is_one_of name (bybit ∷ okx ∷ htx ∷ kucoin ∷ [])
          then some (public_ws_connector name)
          else none)
  unfolding build_connectors
  lookup-build_connectors cfg name =
      ground
        (arith, lookup-enabled_of cfg.exchanges all_connectors name, lookup-all_connectors name)

  connector_eq :
      (cfg : Config W) (name : Name) {c : Connector W}
      → lookup name (build_connectors cfg) ≡ some c
      → public_ws_connector name ≡ c
  connector_eq cfg name {c} e = ground (arith, lookup-build_connectors cfg name, e)

  executed-injective : (a b : Result W) → executed a ≡ executed b → a ≡ b
  executed-injective a b e = ap result_of e
    where
      result_of : Outcome W → Result W
      result_of (executed r) = r
      result_of (failed _) = a

  -- The reply of a connector of the runtime is an error.
  refused :
      (cfg : Config W) (name : Name) (c : Connector W) (req : OrderRequest W)
      → lookup name (build_connectors cfg) ≡ some c
      → (reply (c.place_order req) ≡ no_order)
        × ((c.place_order req).1 ≡ some live_trading_not_implemented)
  unfolding public_ws_connector
  refused cfg name c req e = rw (← connector_eq cfg name e) (refl, refl)

  execute-unfilled :
      (cfg : Config W) (e : Engine W) (first : OrderSide) (a b : Time) (o : Opportunity W)
      (r : Result W)
      → e.mode ≡ mode_live
      → e.connectors ≡ build_connectors cfg
      → execute e first a b o ≡ executed r
      → (r.status ≡ needs_reconcile) × (r.long_order ≡ no_order) × (r.short_order ≡ no_order)
  execute-unfilled cfg e first a b o r live same done =
      elim (Option-cases (lookup o.long_exchange e.connectors)) [
        | inl lost ↦
            let (err, fails) = (execute-live_iff e first a b o live).1 (inl lost) in absurd cc
        | inr (long, found) ↦ elim (Option-cases (lookup o.short_exchange e.connectors)) [
          | inl lost ↦
              let (err, fails) = (execute-live_iff e first a b o live).1 (inr lost) in absurd cc
          | inr (short, found') ↦
              let (r', done', on_long, on_short, status) =
                execute-live e first a b o live found found' in
              let on_long' =
                refused cfg o.long_exchange long (order_request e o buy) (rw same at found) in
              let on_short' =
                refused cfg o.short_exchange short (order_request e o sell) (rw same at found') in
              let eq = executed-injective r r' (sym done ∙ done') in
              rw eq (
                status ∙ live_status-some _ _ on_long'.1,
                on_long ∙ on_long'.0,
                on_short ∙ on_short'.0,
              )
        ]
      ]

  -- In the live mode, whenever the runtime opens a position no order was placed: both legs of the result
  -- are empty and it asks for reconciliation, and still the position is in the book, as an open one.
  pub live-opens-unfilled :
      (cfg : Config W) (s : Scanner W) (m : Moment) (o : Opportunity W) (t : Scanner W)
      → cfg.trading.mode ≡ mode_live
      → IsSafe cfg s
      → (opens : Opens s m o t)
      → (opens.result.status ≡ needs_reconcile)
        × (opens.result.long_order ≡ no_order)
        × (opens.result.short_order ≡ no_order)
        × (p : Position W) × (lookup o.id t.positions.held ≡ some p)
        × (p.status ≡ position_open)
        × (p.quantity ≡ o.quantity)
  unfolding new_runtime Positions.add new_position
  live-opens-unfilled cfg s m o t live safe opens =
      let mode : s.engine.mode ≡ mode_live = ap (λ e. e.mode) safe.engine_eq ∙ live in
      let connectors : s.engine.connectors ≡ build_connectors cfg =
        ap (λ e. e.connectors) safe.engine_eq in
      let (status, long, short) =
        execute-unfilled cfg s.engine m.first m.started m.finished o opens.result mode connectors
          opens.execute_eq in
      (
        status,
        long,
        short,
        new_position o opens.result,
        ap (λ u. lookup o.id u.positions.held) opens.scanner_eq
            ∙ ground (
              arith,
              lookup-insert o.id o.id (new_position o opens.result) s.positions.held,
              text_beq_iff o.id o.id,
            ),
        refl,
        refl,
      )
