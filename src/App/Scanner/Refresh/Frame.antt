-- ===== src/App/Scanner/Refresh/Frame.antt =====
-- What a refresh keeps: the pairs, the bound of the event queue, and every other part of the scanner.
use arb_bot.Prelude.{
  ◌≡◌, refl, sym, ◌∙◌, Bool-cases, inl, inr, List, [], ◌∷◌, some, Option-cases, arith, Text, Map,
  lookup, ◌==◌, text_eq,
}
use arb_bot.Clock.{Time, Duration}
use arb_bot.Float.{Float64}
use arb_bot.Exchange.{OrderBookSnapshot}
use arb_bot.Funding
use arb_bot.State.Positions.{Position, open_positions_by_symbol}
use arb_bot.State.Positions.Book.{IsBook}
use arb_bot.State.Positions.Pairs.{SamePair, NoDuplicates}
use arb_bot.Storage.{position}
use arb_bot.Storage.Queue.{IsBounded, enqueue-IsBounded}
use arb_bot.App.Scanner.{Scanner}
use arb_bot.App.Scanner.Refresh.{
  Refreshed, skipped, kept, ended, refresh_position, apply_refreshed, refresh_loop,
  refresh_positions,
}
use arb_bot.App.Scanner.Refresh.Decision.{Keeps, refresh_position-Keeps}
use arb_bot.App.Scanner.Refresh.Loop.{remains, lookup-refresh_positions}

module _ {W : Type 0} ⦃f : Float64 W⦄ where
  -- The position that a round leaves is for the same pair.
  remains-SamePair :
      (p q : Position W) (r : Refreshed W) → Keeps p r → remains p r ≡ some q → SamePair q p
  remains-SamePair p q skipped k e =
      let same : p ≡ q = cc in rw same record { symbol = refl; long = refl; short = refl }
  remains-SamePair p q (kept t) k e =
      let same : t ≡ q = cc in
      rw (← same) record { symbol = k.0.symbol; long = k.0.long; short = k.0.short }
  remains-SamePair p q (ended t) k e = absurd cc

  -- All parts of the scanner but the positions and the storage.
  pub record SameRest (s t : Scanner W) : Type 0 where
    pub cfg : t.cfg ≡ s.cfg
    pub books : t.books ≡ s.books
    pub funding : t.funding ≡ s.funding
    pub risk : t.risk ≡ s.risk
    pub engine : t.engine ≡ s.engine
    pub opportunities : t.opportunities ≡ s.opportunities

  SameRest-refl : (s : Scanner W) → SameRest s s
  SameRest-refl s = record {
    cfg = refl;
    books = refl;
    funding = refl;
    risk = refl;
    engine = refl;
    opportunities = refl;
  }

  SameRest-trans : (s t u : Scanner W) → SameRest s t → SameRest t u → SameRest s u
  SameRest-trans s t u h k = record {
    cfg = k.cfg ∙ h.cfg;
    books = k.books ∙ h.books;
    funding = k.funding ∙ h.funding;
    risk = k.risk ∙ h.risk;
    engine = k.engine ∙ h.engine;
    opportunities = k.opportunities ∙ h.opportunities;
  }

  apply_refreshed-SameRest : (s : Scanner W) (r : Refreshed W) → SameRest s (apply_refreshed s r)
  unfolding apply_refreshed
  apply_refreshed-SameRest s skipped = SameRest-refl s
  apply_refreshed-SameRest s (kept p) = record {
    cfg = refl;
    books = refl;
    funding = refl;
    risk = refl;
    engine = refl;
    opportunities = refl;
  }
  apply_refreshed-SameRest s (ended p) = record {
    cfg = refl;
    books = refl;
    funding = refl;
    risk = refl;
    engine = refl;
    opportunities = refl;
  }

  apply_refreshed-IsBounded :
      (s : Scanner W) (r : Refreshed W)
      → IsBounded s.storage
      → IsBounded (apply_refreshed s r).storage
  unfolding apply_refreshed
  apply_refreshed-IsBounded s skipped h = h
  apply_refreshed-IsBounded s (kept p) h = h
  apply_refreshed-IsBounded s (ended p) h = enqueue-IsBounded s.storage (position p) h

  refresh_loop-SameRest :
      (max_hold : Duration) (books : Map (OrderBookSnapshot W))
      (fundings : Map (Funding.Snapshot W)) (now : Time) (ps : List (Position W)) (s : Scanner W)
      → SameRest s (refresh_loop max_hold books fundings now ps s)
  unfolding refresh_loop
  refresh_loop-SameRest max_hold books fundings now [] s = SameRest-refl s
  refresh_loop-SameRest max_hold books fundings now (p ∷ ps) s =
      SameRest-trans s _ _ (apply_refreshed-SameRest s _)
        (refresh_loop-SameRest max_hold books fundings now ps _)

  refresh_loop-IsBounded :
      (max_hold : Duration) (books : Map (OrderBookSnapshot W))
      (fundings : Map (Funding.Snapshot W)) (now : Time) (ps : List (Position W)) (s : Scanner W)
      → IsBounded s.storage
      → IsBounded (refresh_loop max_hold books fundings now ps s).storage
  unfolding refresh_loop
  refresh_loop-IsBounded max_hold books fundings now [] s h = h
  refresh_loop-IsBounded max_hold books fundings now (p ∷ ps) s h =
      refresh_loop-IsBounded max_hold books fundings now ps _ (apply_refreshed-IsBounded s _ h)

  module _ (symbol : Text) (books : Map (OrderBookSnapshot W)) (fundings : Map (Funding.Snapshot W))
      (now : Time) (s : Scanner W) where
    pub refresh_positions-SameRest : SameRest s (refresh_positions symbol books fundings now s)
    unfolding refresh_positions
    refresh_positions-SameRest =
        refresh_loop-SameRest s.cfg.strategy.max_hold_time books fundings now
          (open_positions_by_symbol s.positions symbol) s

    pub refresh_positions-IsBounded :
        IsBounded s.storage → IsBounded (refresh_positions symbol books fundings now s).storage
    unfolding refresh_positions
    refresh_positions-IsBounded =
        refresh_loop-IsBounded s.cfg.strategy.max_hold_time books fundings now
          (open_positions_by_symbol s.positions symbol) s

    -- What is open after a refresh was open before it, for the same pair.
    pub was_open :
        (id : Text) (q : Position W)
        → IsBook s.positions
        → lookup id (refresh_positions symbol books fundings now s).positions.held ≡ some q
        → (p : Position W) × (lookup id s.positions.held ≡ some p) × SamePair q p
    was_open id q h e =
        let after = lookup-refresh_positions symbol books fundings now s id h in
        elim (Option-cases (lookup id s.positions.held)) [
          | inl missing ↦ absurd (ground (arith, missing, after, e))
          | inr (p, found) ↦ elim (Bool-cases (p.symbol == symbol)) [
            | inl yours ↦ (
              p,
              found,
              remains-SamePair p q
                  (refresh_position s.cfg.strategy.max_hold_time books fundings now p)
                  (refresh_position-Keeps s.cfg.strategy.max_hold_time books fundings now p)
                  (ground (arith, found, yours, after, e)),
            )
            | inr other ↦
                (p, found, remains-SamePair p q skipped tt (ground (arith, found, other, after, e)))
          ]
        ]

    -- A refresh leaves the pairs of the open positions distinct.
    pub refresh_positions-NoDuplicates :
        IsBook s.positions
        → NoDuplicates s.positions
        → NoDuplicates (refresh_positions symbol books fundings now s).positions
    refresh_positions-NoDuplicates h n i j q r ei ej same =
        let (p, found, pair) = was_open i q h ei in
        let (t, found', pair') = was_open j r h ej in
        n i j p t found found' record {
          symbol = sym pair.symbol ∙ same.symbol ∙ pair'.symbol;
          long = sym pair.long ∙ same.long ∙ pair'.long;
          short = sym pair.short ∙ same.short ∙ pair'.short;
        }
