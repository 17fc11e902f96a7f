-- ===== src/App/Runtime/Opened.antt =====
-- Where a position that an update opens comes from.
use arb_bot.Prelude.{
  ◌≡◌, refl, sym, ◌∙◌, subst, Option, none, some, inl, inr, arith, Text, Map, lookup, lookup-insert,
  text_beq_iff,
}
use mathlib.Core.Option.{some-injective}
use arb_bot.Float.{Float64}
use arb_bot.Exchange.{OrderBookSnapshot}
use arb_bot.MarketData
use arb_bot.Funding
use arb_bot.Strategy.Estimate.{Opportunity}
use arb_bot.State.Positions
use arb_bot.State.Positions.{Position}
use arb_bot.State.Positions.Pairs.{SamePair}
use arb_bot.App.Config.{Config}
use arb_bot.App.Scanner.{Scanner, Moment, best_opportunity}
use arb_bot.App.Scanner.Best.{Candidate}
use arb_bot.App.Scanner.Found.{best_opportunity-Candidate}
use arb_bot.App.Scanner.Refresh.Frame.{was_open}
use arb_bot.App.Scanner.Update.{new_position, open_best}
use arb_bot.App.Scanner.Update.Opening.{Opens, try_open-Opens}
use arb_bot.App.Scanner.Update.Frame.{on_order_book_update-parts}
use arb_bot.App.Scanner.Update.Invariant.{IsSound, open_best-IsSound}
use arb_bot.App.Runtime.{store_update, handle_update}
use arb_bot.App.Runtime.Invariant.{IsSafe, store_update-IsSafe}

module _ {W : Type 0} ⦃f : Float64 W⦄ where
  -- What the scanner reads when it handles the update.
  abbrev pub books_of : Scanner W → OrderBookSnapshot W → Map (OrderBookSnapshot W)
  books_of s update = MarketData.snapshot s.books update.symbol

  abbrev pub fundings_of : Scanner W → OrderBookSnapshot W → Map (Funding.Snapshot W)
  fundings_of s update = Funding.snapshot s.funding update.symbol

  -- The position with this id is for an opportunity that was a candidate, and was opened then.
  pub record Opened (s : Scanner W) (m : Moment) (update : OrderBookSnapshot W) (id : Text)
      (q : Position W) : Type 0 where
    pub best : Opportunity W
    pub mid : Scanner W
    pub id_eq : best.id ≡ id
    pub candidate :
        Candidate s.cfg update.symbol m.estimate_clock update.updated_at
          (fundings_of s update)
          (books_of s update)
          best
    pub opens : Opens s m best mid
    pub pair : SamePair q (new_position best opens.result)

  -- What is open after an attempt to open was open before, or is the new position.
  opened_by :
      (s : Scanner W) (m : Moment) (o : Opportunity W) (t : Scanner W) (h : Opens s m o t)
      (id : Text) (p : Position W)
      → lookup id s.positions.held ≡ none
      → lookup id t.positions.held ≡ some p
      → (o.id ≡ id) × (new_position o h.result ≡ p)
  unfolding Positions.add new_position
  opened_by s m o t h id p before after =
      let e = rw h.scanner_eq at after in
      ground (
        arith,
        before,
        e,
        lookup-insert o.id id (new_position o h.result) s.positions.held,
        text_beq_iff o.id id,
      )

  Opened-from :
      (s : Scanner W) (m : Moment) (update : OrderBookSnapshot W) (mid : Scanner W)
      (best : Option (Opportunity W)) (id : Text) (p q : Position W)
      → best_opportunity s.cfg update.symbol m.estimate_clock update.updated_at
          (fundings_of s update)
          m.visit
          (books_of s update)
        ≡ best
      → open_best s m best ≡ some mid
      → lookup id s.positions.held ≡ none
      → lookup id mid.positions.held ≡ some p
      → SamePair q p
      → Opened s m update id q
  unfolding open_best
  Opened-from s m update mid none id p q b e before after pair =
      let same : s ≡ mid = some-injective _ _ e in
      absurd (ground (arith, before, rw (← same) at after))
  Opened-from s m update mid (some o) id p q b e before after pair =
      elim (try_open-Opens s m o mid e) [
        | inl same ↦ absurd (ground (arith, before, rw same at after))
        | inr opens ↦
            let (id_eq, new_eq) = opened_by s m o mid opens id p before after in
            record {
              best = o;
              mid = mid;
              id_eq = id_eq;
              candidate =
                  best_opportunity-Candidate s.cfg update.symbol m.estimate_clock update.updated_at
                    (fundings_of s update) m.visit (books_of s update) o b;
              opens = opens;
              pair = rw new_eq pair;
            }
      ]

  -- In a safe state, a position that is open after an update and was not before is for an opportunity
  -- that is the accepted estimate of two different exchanges with fresh books and known funding;
  -- no position was open for its pair, every check approved it, and its execution gave a result.
  pub handle_update-Opened :
      (cfg : Config W) (s t : Scanner W) (m : Moment) (update : OrderBookSnapshot W) (id : Text)
      (q : Position W)
      → IsSafe cfg s
      → handle_update s m update ≡ some t
      → lookup id s.positions.held ≡ none
      → lookup id t.positions.held ≡ some q
      → Opened (store_update s m update) m update id q
  unfolding handle_update store_update
  handle_update-Opened cfg s t m update id q safe e before after =
      let s' = store_update s m update in
      let (mid, opened, refreshed) = on_order_book_update-parts s' m update t e in
      let (mid', opened', sound) =
        open_best-IsSound s' m _ (store_update-IsSafe cfg s m update safe).sound in
      let same : mid' ≡ mid = some-injective _ _ (sym opened' ∙ opened) in
      let (p, found, pair) =
        was_open update.symbol (books_of s' update) (fundings_of s' update) update.updated_at mid id
          q (subst (λ u. IsSound u) same sound).book (rw refreshed at after) in
      Opened-from s' m update mid _ id p q refl opened before found pair
