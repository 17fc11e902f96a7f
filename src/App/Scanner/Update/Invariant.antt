-- ===== src/App/Scanner/Update/Invariant.antt =====
-- The scanner stays well formed, and an update never panics.
use arb_bot.Prelude.{
  ◌≡◌, refl, sym, subst, false, ◌∷◌, Option, none, some, Bool-cases, inl, inr, arith, pos, pos_part,
  ◌≤ℤ◌, ltb_ℤ, length, take, length-take, ◌≤◌, Text, Map, text_eq,
}
use arb_bot.Clock.{Time}
use arb_bot.Float.{Float64}
use arb_bot.Exchange.{OrderBookSnapshot}
use arb_bot.MarketData
use arb_bot.Funding
use arb_bot.Strategy.Estimate.{Opportunity}
use arb_bot.Risk.{Decision, check}
use arb_bot.Execution.{Result, execute}
use arb_bot.State.Positions
use arb_bot.State.Positions.{Position, has_open}
use arb_bot.State.Positions.Book.{IsBook, add-IsBook}
use arb_bot.State.Positions.Pairs.{NoDuplicates, add-NoDuplicates}
use arb_bot.State.Opportunities
use arb_bot.State.Opportunities.{OpportunityRecord, OpportunityLog}
use arb_bot.Storage.{enqueue, opportunity, position}
use arb_bot.Storage.Queue.{IsBounded, enqueue-IsBounded}
use arb_bot.App.Scanner.{Scanner, Moment, best_opportunity}
use arb_bot.App.Scanner.Refresh.{refresh_positions}
use arb_bot.App.Scanner.Refresh.Frame.{
  refresh_positions-SameRest, refresh_positions-IsBounded, refresh_positions-NoDuplicates,
}
use arb_bot.App.Scanner.Refresh.Loop.{refresh_positions-IsBook}
use arb_bot.App.Scanner.Update.{
  new_position, record_open, try_open, open_best, on_order_book_update,
}
use arb_bot.App.Scanner.Update.Opening.{Outcome-cases}

module _ {W : Type 0} where
  -- The log has a limit that is not negative, and is within it.
  pub record IsLog (l : OpportunityLog W) : Type 0 where
    pub limit_nonneg : pos 0 ≤ℤ l.limit
    pub bounded : length l.records ≤ pos_part l.limit

  add-IsLog :
      (l : OpportunityLog W) (r : OpportunityRecord W)
      → IsLog l
      → (l' : OpportunityLog W) × (Opportunities.add l r ≡ some l') × IsLog l'
  unfolding Opportunities.add
  add-IsLog l r h = elim (Bool-cases (ltb_ℤ l.limit (pos (length (r ∷ l.records))))) [
    | inl full ↦ (
      record l { records = take (pos_part l.limit) (r ∷ l.records) },
      ground (arith, full, h.limit_nonneg),
      record {
        limit_nonneg = h.limit_nonneg;
        bounded = ground (arith, length-take (pos_part l.limit) (r ∷ l.records));
      },
    )
    | inr room ↦ (
      record l { records = r ∷ l.records },
      ground (arith, room),
      record { limit_nonneg = h.limit_nonneg; bounded = ground (arith, room, h.limit_nonneg) },
    )
  ]

  -- What holds between two updates.
  pub record IsSound (s : Scanner W) : Type 0 where
    pub book : IsBook s.positions
    pub pairs : NoDuplicates s.positions
    pub log : IsLog s.opportunities
    pub queue : IsBounded s.storage

module _ {W : Type 0} ⦃f : Float64 W⦄ where
  record_open-IsSound :
      (s : Scanner W) (o : Opportunity W) (d : Decision) (result : Result W)
      → IsSound s
      → has_open s.positions o.symbol o.long_exchange o.short_exchange ≡ false
      → (t : Scanner W) × (record_open s o d result ≡ some t) × IsSound t
  unfolding record_open new_position
  record_open-IsSound s o d result h free =
      let entry : OpportunityRecord W = record {
        opportunity = o;
        decision = d;
        execution = result;
      } in
      let p = new_position o result in
      let (log, added, is_log) = add-IsLog s.opportunities entry h.log in
      (
        record s {
          positions = Positions.add s.positions p;
          opportunities = log;
          storage = enqueue (enqueue s.storage (opportunity entry)) (position p);
        },
        rw (added, record_open) refl,
        record {
          book = add-IsBook s.positions p h.book;
          pairs = add-NoDuplicates s.positions p h.pairs free;
          log = is_log;
          queue =
              enqueue-IsBounded _ (position p)
                (enqueue-IsBounded s.storage (opportunity entry) h.queue);
        },
      )

  try_open-IsSound :
      (s : Scanner W) (m : Moment) (o : Opportunity W)
      → IsSound s
      → (t : Scanner W) × (try_open s m o ≡ some t) × IsSound t
  unfolding try_open
  try_open-IsSound s m o h =
      elim (Bool-cases (has_open s.positions o.symbol o.long_exchange o.short_exchange)) [
        | inl held ↦ (s, rw (held, try_open) refl, h)
        | inr free ↦ elim (Bool-cases (check s.risk m.cancelled m.check_clock o).approved) [
          | inr refused ↦ (s, rw (free, refused, try_open) refl, h)
          | inl approved ↦ elim (Outcome-cases (execute s.engine m.first m.started m.finished o)) [
            | inl (err, e) ↦ (s, rw (free, approved, e, try_open) refl, h)
            | inr (result, e) ↦
                rw (free, approved, e, try_open) (record_open-IsSound s o _ result h free)
          ]
        ]
      ]

  pub open_best-IsSound :
      (s : Scanner W) (m : Moment) (best : Option (Opportunity W))
      → IsSound s
      → (t : Scanner W) × (open_best s m best ≡ some t) × IsSound t
  unfolding open_best
  open_best-IsSound s m none h = (s, refl, h)
  open_best-IsSound s m (some o) h = try_open-IsSound s m o h

  refresh_positions-IsSound :
      (symbol : Text) (books : Map (OrderBookSnapshot W)) (fundings : Map (Funding.Snapshot W))
      (now : Time) (s : Scanner W)
      → IsSound s
      → IsSound (refresh_positions symbol books fundings now s)
  refresh_positions-IsSound symbol books fundings now s h = record {
    book = refresh_positions-IsBook symbol books fundings now s h.book;
    pairs = refresh_positions-NoDuplicates symbol books fundings now s h.book h.pairs;
    log =
        subst IsLog (sym (refresh_positions-SameRest symbol books fundings now s).opportunities)
          h.log;
    queue = refresh_positions-IsBounded symbol books fundings now s h.queue;
  }

  -- From a sound scanner every order book update runs to its end, whatever the data and the clocks
  -- are, and leaves the scanner sound: distinct ids, no two open positions for a pair, the logs and the queue within
  -- their limits.
  pub on_order_book_update-IsSound :
      (s : Scanner W) (m : Moment) (update : OrderBookSnapshot W)
      → IsSound s
      → (t : Scanner W) × (on_order_book_update s m update ≡ some t) × IsSound t
  unfolding on_order_book_update
  on_order_book_update-IsSound s m update h =
      let books = MarketData.snapshot s.books update.symbol in
      let fundings = Funding.snapshot s.funding update.symbol in
      let (t, opened, sound) =
        open_best-IsSound s m
          (best_opportunity s.cfg update.symbol m.estimate_clock update.updated_at fundings m.visit
            books)
          h in
      (
        refresh_positions update.symbol books fundings update.updated_at t,
        rw (opened, on_order_book_update) refl,
        refresh_positions-IsSound update.symbol books fundings update.updated_at t sound,
      )
