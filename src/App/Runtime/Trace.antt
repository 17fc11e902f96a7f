-- ===== src/App/Runtime/Trace.antt =====
-- The stores of the runtime against the sequence of its updates: they hold the latest of each symbol and
-- exchange, whatever the scanner and the writer do in between.
use arb_bot.Prelude.{
  ◌≡◌, refl, ap, ◌∙◌, ◌&&◌, List, [], ◌∷◌, Option, none, some, ◌==◌, text_eq, if◌then◌else◌, Text,
  lookup, Bool-cases, inl, inr,
}
use arb_bot.Float.{Float64}
use arb_bot.Exchange.{Name, OrderBookSnapshot}
use arb_bot.Tables.Laws.{lookup-snapshot-nil}
use arb_bot.MarketData
use arb_bot.MarketData.Laws
use arb_bot.Funding
use arb_bot.Funding.Laws as FundingLaws
use arb_bot.Storage
use arb_bot.Storage.{Event, dequeue}
use arb_bot.App.Config.{Config}
use arb_bot.App.Scanner.{Scanner, Moment}
use arb_bot.App.Scanner.Update.Frame.{on_order_book_update-SameSetup}
use arb_bot.App.Runtime.{
  new_runtime, store_update, handle_update, handled, written, Reachable, started, stepped,
}
use arb_bot.App.Runtime.Invariant.{IsSafe, Reachable-IsSafe}

module _ {W : Type 0} ⦃f : Float64 W⦄ where
  -- A run of the runtime, with the updates that it has handled, the latest first.
  pub data Trace (cfg : Config W) : List (Moment × OrderBookSnapshot W) → Scanner W → Type 0 where
    began : {s : Scanner W} → s ≡ new_runtime cfg → Trace cfg [] s
    took :
        {s t : Scanner W} {seen : List (Moment × OrderBookSnapshot W)} (m : Moment)
        (update : OrderBookSnapshot W)
        → Trace cfg seen s
        → handle_update s m update ≡ some t
        → Trace cfg ((m, update) ∷ seen) t
    wrote :
        {s t : Scanner W} {seen : List (Moment × OrderBookSnapshot W)} (event : Event W)
        (rest : Storage.Store W)
        → Trace cfg seen s
        → dequeue s.storage ≡ some (event, rest)
        → t ≡ record s { storage = rest }
        → Trace cfg seen t

  pub Trace-Reachable :
      (cfg : Config W) (seen : List (Moment × OrderBookSnapshot W)) (s : Scanner W)
      → Trace cfg seen s
      → Reachable cfg s
  Trace-Reachable cfg seen s (began e) = started e
  Trace-Reachable cfg seen s (took m update run e) =
      stepped (Trace-Reachable cfg _ _ run) (handled m update e)
  Trace-Reachable cfg seen s (wrote event rest run e same) =
      stepped (Trace-Reachable cfg _ _ run) (written event rest e same)

  -- The latest update for a symbol and an exchange.
  unfoldable pub latest :
      Text → Name → List (Moment × OrderBookSnapshot W) → Option (Moment × OrderBookSnapshot W)
  latest symbol name [] = none
  latest symbol name ((m, b) ∷ seen) =
      if b.symbol == symbol && b.exchange == name then some (m, b) else latest symbol name seen

  abbrev pub book_of : Option (Moment × OrderBookSnapshot W) → Option (OrderBookSnapshot W)
  book_of none = none
  book_of (some (m, b)) = some b

  abbrev pub funding_of :
      Funding.Config W → Option (Moment × OrderBookSnapshot W) → Option (Funding.Snapshot W)
  funding_of cfg none = none
  funding_of cfg (some (m, b)) = some (Funding.synthetic_snapshot m.funding_clock b cfg)

  -- What the stores hold under a symbol and an exchange.
  pub record Holds (cfg : Config W) (s : Scanner W) (symbol name : Text)
      (last : Option (Moment × OrderBookSnapshot W)) : Type 0 where
    pub book_eq : lookup name (MarketData.snapshot s.books symbol) ≡ book_of last
    pub funding_eq :
        lookup name (Funding.snapshot s.funding symbol)
        ≡ funding_of (new_runtime cfg).funding.cfg last
    pub settings : s.funding.cfg ≡ (new_runtime cfg).funding.cfg

  Holds-new : (cfg : Config W) (symbol name : Text) → Holds cfg (new_runtime cfg) symbol name none
  unfolding new_runtime MarketData.new_store MarketData.snapshot Funding.new_store Funding.snapshot
  Holds-new cfg symbol name = record {
    book_eq = lookup-snapshot-nil symbol name;
    funding_eq = lookup-snapshot-nil symbol name;
    settings = refl;
  }

  store_update-settings :
      (s : Scanner W) (m : Moment) (update : OrderBookSnapshot W)
      → (store_update s m update).funding.cfg ≡ s.funding.cfg
  unfolding store_update Funding.apply_synthetic_from_order_book Funding.apply
  store_update-settings s m update = refl

  Holds-store :
      (cfg : Config W) (s : Scanner W) (m : Moment) (update : OrderBookSnapshot W)
      (symbol name : Text) (last : Option (Moment × OrderBookSnapshot W))
      → IsSafe cfg s
      → Holds cfg s symbol name last
      → Holds cfg
          (store_update s m update)
          symbol
          name
          (if update.symbol == symbol && update.exchange == name then some (m, update) else last)
  unfolding store_update
  Holds-store cfg s m update symbol name last safe h =
      let stored = Laws.lookup-snapshot-apply s.books update symbol name safe.books_filed in
      let derived =
        FundingLaws.lookup-snapshot-synthetic m.funding_clock s.funding update symbol name
          safe.funding_filed in
      elim (Bool-cases (update.symbol == symbol && update.exchange == name)) [
        | inl mine ↦ rw mine record {
          book_eq = stored ∙ rw mine refl;
          funding_eq = derived ∙ rw (mine, h.settings) refl;
          settings = store_update-settings s m update ∙ h.settings;
        }
        | inr other ↦ rw other record {
          book_eq = stored ∙ rw other h.book_eq;
          funding_eq = derived ∙ rw other h.funding_eq;
          settings = store_update-settings s m update ∙ h.settings;
        }
      ]

  Holds-same :
      (cfg : Config W) (s t : Scanner W) (symbol name : Text)
      (last : Option (Moment × OrderBookSnapshot W))
      → t.books ≡ s.books
      → t.funding ≡ s.funding
      → Holds cfg s symbol name last
      → Holds cfg t symbol name last
  Holds-same cfg s t symbol name last books funding h = record {
    book_eq = ap (λ b. lookup name (MarketData.snapshot b symbol)) books ∙ h.book_eq;
    funding_eq = ap (λ b. lookup name (Funding.snapshot b symbol)) funding ∙ h.funding_eq;
    settings = ap (λ b. b.cfg) funding ∙ h.settings;
  }

  -- In every run of the runtime, whatever the scanner and the writer do in between, the stores hold
  -- under each symbol and exchange the latest update for them and the funding snapshot that is derived
  -- from it, and nothing if there was no such update.
  pub Trace-Holds :
      (cfg : Config W) (seen : List (Moment × OrderBookSnapshot W)) (s : Scanner W)
      (symbol name : Text)
      → Trace cfg seen s
      → Holds cfg s symbol name (latest symbol name seen)
  unfolding latest handle_update
  Trace-Holds cfg seen s symbol name (began e) = rw e (Holds-new cfg symbol name)
  Trace-Holds cfg seen s symbol name (took {s = before} {seen = earlier} m update run e) =
      let safe = Reachable-IsSafe cfg before (Trace-Reachable cfg earlier before run) in
      let same = on_order_book_update-SameSetup (store_update before m update) m update s e in
      Holds-same cfg (store_update before m update) s symbol name _ same.books same.funding (
        Holds-store cfg before m update symbol name (latest symbol name earlier) safe
          (Trace-Holds cfg earlier before symbol name run))
  Trace-Holds cfg seen s symbol name (wrote {s = before} event rest run e same) =
      Holds-same cfg before s symbol name _ (ap (λ u. u.books) same) (ap (λ u. u.funding) same)
        (Trace-Holds cfg seen before symbol name run)
