-- ===== src/App/Runtime/Invariant.antt =====
-- Every state that the runtime reaches is sound, and no update panics.
use arb_bot.Prelude.{◌≡◌, refl, sym, ◌∙◌, subst, some, arith, pos, lookup, text_eq}
use mathlib.Core.Option.{some-injective}
use arb_bot.Float.{Float64}
use arb_bot.Exchange.{OrderBookSnapshot}
use arb_bot.MarketData.Laws
use arb_bot.Funding
use arb_bot.Funding.Laws as FundingLaws
use arb_bot.State.Positions.Book.{new_position_book-IsBook}
use arb_bot.State.Positions.{new_position_book}
use arb_bot.State.Opportunities.{new_opportunity_log}
use arb_bot.Storage
use arb_bot.Storage.{Event, order_book, dequeue}
use arb_bot.Storage.Queue.{enqueue-IsBounded, dequeue-IsBounded}
use arb_bot.App.Config.{Config}
use arb_bot.App.Scanner.{Scanner, Moment}
use arb_bot.App.Scanner.Update.Frame.{on_order_book_update-SameSetup}
use arb_bot.App.Scanner.Update.Invariant.{IsSound, on_order_book_update-IsSound}
use arb_bot.App.Runtime.{
  new_runtime, store_update, handle_update, Step, handled, written, Reachable, started, stepped,
}

module _ {W : Type 0} ⦃f : Float64 W⦄ where
  -- The scanner is sound, each book and each funding snapshot is filed under its own names, and
  -- the checks, the engine and the settings are those of the configuration.
  pub record IsSafe (cfg : Config W) (s : Scanner W) : Type 0 where
    pub sound : IsSound s
    pub books_filed : Laws.IsFiled s.books
    pub funding_filed : FundingLaws.IsFiled s.funding
    pub cfg_eq : s.cfg ≡ cfg
    pub risk_eq : s.risk ≡ (new_runtime cfg).risk
    pub engine_eq : s.engine ≡ (new_runtime cfg).engine

  new_runtime-IsSafe : (cfg : Config W) → IsSafe cfg (new_runtime cfg)
  unfolding new_runtime Storage.new_store new_position_book lookup new_opportunity_log
  new_runtime-IsSafe cfg = record {
    sound = record {
      book = new_position_book-IsBook (pos 100);
      pairs = λ i j p q e. absurd cc;
      log = record { limit_nonneg = ground arith; bounded = ground arith };
      queue = ground arith;
    };
    books_filed = Laws.new_store-IsFiled;
    funding_filed = FundingLaws.new_store-IsFiled _;
    cfg_eq = refl;
    risk_eq = refl;
    engine_eq = refl;
  }

  pub store_update-IsSafe :
      (cfg : Config W) (s : Scanner W) (m : Moment) (update : OrderBookSnapshot W)
      → IsSafe cfg s
      → IsSafe cfg (store_update s m update)
  unfolding store_update Funding.apply_synthetic_from_order_book
  store_update-IsSafe cfg s m update h = record {
    sound = record {
      book = h.sound.book;
      pairs = h.sound.pairs;
      log = h.sound.log;
      queue = enqueue-IsBounded s.storage (order_book update) h.sound.queue;
    };
    books_filed = Laws.apply-IsFiled s.books update h.books_filed;
    funding_filed = FundingLaws.apply-IsFiled s.funding _ h.funding_filed;
    cfg_eq = h.cfg_eq;
    risk_eq = h.risk_eq;
    engine_eq = h.engine_eq;
  }

  -- In a safe state every update is handled to its end, whatever it holds, and the state is safe again.
  pub handle_update-IsSafe :
      (cfg : Config W) (s : Scanner W) (m : Moment) (update : OrderBookSnapshot W)
      → IsSafe cfg s
      → (t : Scanner W) × (handle_update s m update ≡ some t) × IsSafe cfg t
  unfolding handle_update
  handle_update-IsSafe cfg s m update h =
      let stored = store_update-IsSafe cfg s m update h in
      let (t, e, sound) =
        on_order_book_update-IsSound (store_update s m update) m update stored.sound in
      let same = on_order_book_update-SameSetup (store_update s m update) m update t e in
      (
        t,
        e,
        record {
          sound = sound;
          books_filed = subst Laws.IsFiled (sym same.books) stored.books_filed;
          funding_filed = subst FundingLaws.IsFiled (sym same.funding) stored.funding_filed;
          cfg_eq = same.cfg ∙ stored.cfg_eq;
          risk_eq = same.risk ∙ stored.risk_eq;
          engine_eq = same.engine ∙ stored.engine_eq;
        },
      )

  Step-IsSafe : (cfg : Config W) (s t : Scanner W) → IsSafe cfg s → Step s t → IsSafe cfg t
  Step-IsSafe cfg s t h (handled m update e) =
      let (u, e', safe) = handle_update-IsSafe cfg s m update h in
      subst (IsSafe cfg) (some-injective _ _ (sym e' ∙ e)) safe
  Step-IsSafe cfg s t h (written event rest e same) = rw same record {
    sound = record {
      book = h.sound.book;
      pairs = h.sound.pairs;
      log = h.sound.log;
      queue = dequeue-IsBounded s.storage event rest e h.sound.queue;
    };
    books_filed = h.books_filed;
    funding_filed = h.funding_filed;
    cfg_eq = h.cfg_eq;
    risk_eq = h.risk_eq;
    engine_eq = h.engine_eq;
  }

  -- Every state that the runtime reaches from its start is safe, in any order of the updates and of
  -- the writes.
  pub Reachable-IsSafe : (cfg : Config W) (s : Scanner W) → Reachable cfg s → IsSafe cfg s
  Reachable-IsSafe cfg s (started e) = subst (IsSafe cfg) (sym e) (new_runtime-IsSafe cfg)
  Reachable-IsSafe cfg s (stepped {s = before} path step) =
      Step-IsSafe cfg before s (Reachable-IsSafe cfg before path) step
