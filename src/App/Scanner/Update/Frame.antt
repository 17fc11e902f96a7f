-- ===== src/App/Scanner/Update/Frame.antt =====
-- What an update keeps: the configuration, the stores of books and funding, the checks and the engine.
use arb_bot.Prelude.{◌≡◌, refl, sym, ◌∙◌, subst, Option, none, some, Option-cases, inl, inr, arith}
use mathlib.Core.Option.{some-injective}
use arb_bot.Float.{Float64}
use arb_bot.Exchange.{OrderBookSnapshot}
use arb_bot.MarketData
use arb_bot.Funding
use arb_bot.Strategy.Estimate.{Opportunity}
use arb_bot.App.Scanner.{Scanner, Moment, best_opportunity}
use arb_bot.App.Scanner.Refresh.{refresh_positions}
use arb_bot.App.Scanner.Refresh.Frame.{refresh_positions-SameRest}
use arb_bot.App.Scanner.Update.{open_best, on_order_book_update}
use arb_bot.App.Scanner.Update.Opening.{Opens, try_open-Opens}

module _ {W : Type 0} ⦃f : Float64 W⦄ where
  -- All parts of the scanner that an update does not change.
  pub record SameSetup (s t : Scanner W) : Type 0 where
    pub cfg : t.cfg ≡ s.cfg
    pub books : t.books ≡ s.books
    pub funding : t.funding ≡ s.funding
    pub risk : t.risk ≡ s.risk
    pub engine : t.engine ≡ s.engine

  SameSetup-refl : (s : Scanner W) → SameSetup s s
  SameSetup-refl s = record { cfg = refl; books = refl; funding = refl; risk = refl; engine = refl }

  Opens-SameSetup :
      (s : Scanner W) (m : Moment) (o : Opportunity W) (t : Scanner W)
      → Opens s m o t
      → SameSetup s t
  Opens-SameSetup s m o t h =
      rw h.scanner_eq
        record { cfg = refl; books = refl; funding = refl; risk = refl; engine = refl }

  open_best-SameSetup :
      (s : Scanner W) (m : Moment) (best : Option (Opportunity W)) (t : Scanner W)
      → open_best s m best ≡ some t
      → SameSetup s t
  unfolding open_best
  open_best-SameSetup s m none t e = subst (SameSetup s) (some-injective _ _ e) (SameSetup-refl s)
  open_best-SameSetup s m (some o) t e = elim (try_open-Opens s m o t e) [
    | inl same ↦ subst (SameSetup s) (sym same) (SameSetup-refl s)
    | inr opens ↦ Opens-SameSetup s m o t opens
  ]

  -- An update that runs to its end is an attempt to open a position, and then a refresh.
  pub on_order_book_update-parts :
      (s : Scanner W) (m : Moment) (update : OrderBookSnapshot W) (t : Scanner W)
      → on_order_book_update s m update ≡ some t
      → (mid : Scanner W) × (open_best s m (
            best_opportunity s.cfg update.symbol m.estimate_clock update.updated_at
              (Funding.snapshot s.funding update.symbol)
              m.visit
              (MarketData.snapshot s.books update.symbol))
          ≡ some mid)
        × (t
            ≡ refresh_positions update.symbol
                (MarketData.snapshot s.books update.symbol)
                (Funding.snapshot s.funding update.symbol)
                update.updated_at
                mid)
  unfolding on_order_book_update
  on_order_book_update-parts s m update t e =
      elim (Option-cases (
        open_best s m (
          best_opportunity s.cfg update.symbol m.estimate_clock update.updated_at
            (Funding.snapshot s.funding update.symbol) m.visit
            (MarketData.snapshot s.books update.symbol)))) [
              | inl panic ↦ absurd (ground (arith, panic, e))
              | inr (mid, opened) ↦
                  (mid, opened, sym (some-injective _ _ (rw (opened, on_order_book_update) at e)))
            ]

  pub on_order_book_update-SameSetup :
      (s : Scanner W) (m : Moment) (update : OrderBookSnapshot W) (t : Scanner W)
      → on_order_book_update s m update ≡ some t
      → SameSetup s t
  on_order_book_update-SameSetup s m update t e =
      let (mid, opened, refreshed) = on_order_book_update-parts s m update t e in
      let before = open_best-SameSetup s m _ mid opened in
      let after =
        refresh_positions-SameRest update.symbol (MarketData.snapshot s.books update.symbol)
          (Funding.snapshot s.funding update.symbol) update.updated_at mid in
      rw refreshed record {
        cfg = after.cfg ∙ before.cfg;
        books = after.books ∙ before.books;
        funding = after.funding ∙ before.funding;
        risk = after.risk ∙ before.risk;
        engine = after.engine ∙ before.engine;
      }
