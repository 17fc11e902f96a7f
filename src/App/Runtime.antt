-- ===== src/App/Runtime.antt =====
-- internal/app/runtime.go: the runtime, its connectors, and the goroutines that change its state. The
-- stores are shared by pointer with the scanner, so the scanner holds all of them. The steps are those of
-- `runScanner`, one for each update, and of the writer of the event queue; they interleave.
pub mod Built
pub mod Invariant
pub mod Opened
pub mod Trace
pub mod Books
pub mod Served
pub mod Channel
pub mod Loop
pub mod Lifecycle
pub mod Unread
pub mod Recorded
pub mod Persisted
use arb_bot.Prelude.{
  Bool, true, false, List, [], ◌∷◌, Option, none, some, ◌≡◌, ◌==◌, text_eq, if◌then◌else◌, ℤ, pos,
  Text, Map, lookup, insert,
}
use arb_bot.Clock.{Time}
use arb_bot.Float.{Float64}
use arb_bot.Exchange.{Name, bybit, okx, htx, kucoin, OrderBookSnapshot, Connector}
use arb_bot.Exchange.Adapters.{new_bybit, new_okx, new_htx, new_kucoin}
use arb_bot.MarketData
use arb_bot.Funding
use arb_bot.Execution.{new_engine}
use arb_bot.Risk
use arb_bot.State.Positions.{new_position_book}
use arb_bot.State.Opportunities.{new_opportunity_log}
use arb_bot.Storage
use arb_bot.Storage.{enqueue, dequeue, Event, order_book}
use arb_bot.Api.{FeeView, ServerConfig}
use arb_bot.App.Config.{Config, ExchangeConfig, FeeConfig}
use arb_bot.App.Scanner.{Scanner, new_scanner, Moment}
use arb_bot.App.Scanner.Update.{on_order_book_update}

-- `cfg.Exchanges[string(name)].Enabled`, where a missing key reads as false.
unfoldable pub is_enabled : Map ExchangeConfig → Name → Bool
is_enabled exchanges name = elim (lookup name exchanges) [ none ↦ false | some e ↦ e.enabled ]

module _ {W : Type 0} ⦃f : Float64 W⦄ where
  enabled_of : Map ExchangeConfig → Map (Connector W) → Map (Connector W)
  enabled_of exchanges [] = []
  enabled_of exchanges ((name, connector) ∷ rest) =
      let enabled = enabled_of exchanges rest in
      if is_enabled exchanges name then (name, connector) ∷ enabled else enabled

  all_connectors : Map (Connector W)
  all_connectors = (bybit, new_bybit) ∷ (okx, new_okx) ∷ (htx, new_htx) ∷ (kucoin, new_kucoin) ∷ []

  unfoldable pub build_connectors : Config W → Map (Connector W)
  unfolding enabled_of all_connectors
  build_connectors cfg = enabled_of cfg.exchanges all_connectors

  -- `NewRuntime`, with `NewScanner` and the constructors of the components.
  unfoldable pub new_runtime : Config W → Scanner W
  new_runtime cfg = new_scanner (record {
    config = cfg;
    books = MarketData.new_store;
    funding = Funding.new_store (record {
      default_rate_pct = cfg.strategy.default_funding_rate_pct;
      funding_interval = cfg.strategy.funding_interval;
    });
    risk = record {
      max_trade_usd = cfg.risk.max_trade_usd;
      min_profit_usd = cfg.risk.min_profit_usd;
      min_profit_pct = cfg.risk.min_profit_pct;
      min_time_to_funding = cfg.strategy.min_time_to_funding;
    };
    execution =
        new_engine
          (record {
            mode = cfg.trading.mode;
            timeout = cfg.execution.order_timeout;
            order_type = cfg.execution.order_type;
          })
          (build_connectors cfg);
    opportunities = new_opportunity_log (pos 100);
    positions = new_position_book (pos 100);
    storage = Storage.new_store (record {
      addr = cfg.storage.redis_addr;
      password = cfg.storage.redis_password;
      db = cfg.storage.redis_db;
      history_limit = cfg.storage.redis_history_limit;
      operation_timeout = cfg.storage.redis_operation_timeout;
      enabled = cfg.storage.redis_enabled;
    });
  })

  -- `for exchange, fee := range fees { out[exchange] = ... }`
  add_fees : Map (FeeView W) → Map (FeeConfig W) → Map (FeeView W)
  unfolding insert
  add_fees out [] = out
  add_fees out ((exchange, fee) ∷ fees) =
      let view : FeeView W = record { maker_pct = fee.maker_pct; taker_pct = fee.taker_pct } in
      add_fees (insert exchange view out) fees

  unfoldable pub fee_view : Map (FeeConfig W) → Map (FeeView W)
  unfolding add_fees
  fee_view fees = add_fees [] fees

  -- What the API server of `NewRuntime` reads when the runtime is in a state; its connectors are those
  -- of the engine.
  unfoldable pub server_config : Config W → Scanner W → ServerConfig W
  server_config cfg s = record {
    addr = cfg.app.admin_addr;
    trading_mode = cfg.trading.mode;
    connectors = build_connectors cfg;
    books = s.books;
    funding = s.funding;
    opportunities = s.opportunities;
    positions = s.positions;
    storage = s.storage;
    fees = fee_view cfg.fees;
  }

  -- What `runScanner` does before it calls the scanner.
  unfoldable pub store_update : Scanner W → Moment → OrderBookSnapshot W → Scanner W
  store_update s m update = record s {
    books = MarketData.apply s.books update;
    funding = (Funding.apply_synthetic_from_order_book m.funding_clock s.funding update).0;
    storage = enqueue s.storage (order_book update);
  }

  -- One update of the channel.
  unfoldable pub handle_update : Scanner W → Moment → OrderBookSnapshot W → Option (Scanner W)
  handle_update s m update = on_order_book_update (store_update s m update) m update

  -- A step of one of the goroutines.
  pub data Step (s : Scanner W) : Scanner W → Type 0 where
    handled :
        {t : Scanner W} (m : Moment) (update : OrderBookSnapshot W)
        → handle_update s m update ≡ some t
        → Step s t
    written :
        {t : Scanner W} (event : Event W) (rest : Storage.Store W)
        → dequeue s.storage ≡ some (event, rest)
        → t ≡ record s { storage = rest }
        → Step s t

  -- The states of a run of the runtime.
  pub data Reachable (cfg : Config W) : Scanner W → Type 0 where
    started : {s : Scanner W} → s ≡ new_runtime cfg → Reachable cfg s
    stepped : {s t : Scanner W} → Reachable cfg s → Step s t → Reachable cfg t
