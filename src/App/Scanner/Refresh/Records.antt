-- ===== src/App/Scanner/Refresh/Records.antt =====
-- What the positions, the log and the queue record, through a refresh.
use arb_bot.Prelude.{
  true, ◌≡◌, ◌⊎◌, List, [], ◌∷◌, Bool-cases, Option-cases, inl, inr, All, All-take,
  insert-AllValues, erase-AllValues, ltb_ℤ, pos, pos_part, length, Text, Map, lookup, text_eq,
}
use arb_bot.Clock.{Time, Duration}
use arb_bot.Float.{Float64}
use arb_bot.Exchange.{OrderBookSnapshot}
use arb_bot.Funding
use arb_bot.State.Positions.{Position, PositionBook, update, close, open_positions_by_symbol}
use arb_bot.State.Positions.Listing.{All-open_positions_by_symbol}
use arb_bot.App.Scanner.{Scanner}
use arb_bot.App.Scanner.Refresh.{
  Refreshed, skipped, kept, ended, refresh_position, apply_refreshed, refresh_loop,
  refresh_positions,
}
use arb_bot.State.Opportunities.{OpportunityRecord}
use arb_bot.Storage.{Event, order_book, opportunity, position}
use arb_bot.Storage.Queue.{enqueue-All}
use arb_bot.App.Scanner.Refresh.Accounts.{
  IsLive, IsSettled, IsAccounted, Settles, refresh_position-Settles,
}

module _ {W : Type 0} ⦃f : Float64 W⦄ where
  update-IsAccounted :
      (b : PositionBook W) (p : Position W) → IsLive p → IsAccounted b → IsAccounted (update b p)
  unfolding update
  update-IsAccounted b p live h = elim (Option-cases (lookup p.id b.held)) [
    | inl e ↦ rw (e, update) h
    | inr (q, e) ↦
        rw (e, update)
          record { live = insert-AllValues IsLive p.id p b.held live h.live; settled = h.settled }
  ]

  close-IsAccounted :
      (b : PositionBook W) (p : Position W) → IsSettled p → IsAccounted b → IsAccounted (close b p)
  unfolding close
  close-IsAccounted b p settled h = record {
    live = erase-AllValues IsLive p.id b.held h.live;
    settled = elim (Bool-cases (ltb_ℤ b.limit (pos (length (p ∷ b.closed))))) [
      | inl full ↦
          rw full (All-take IsSettled (pos_part b.limit) (p ∷ b.closed) (settled, h.settled))
      | inr room ↦ rw room (settled, h.settled)
    ];
  }

  -- An event for Redis: a position that is open or closed by its accounts, or an approved opportunity.
  abbrev pub IsWorthy : Event W → Type 0
  IsWorthy (order_book b) = Unit {0}
  IsWorthy (opportunity r) = r.decision.approved ≡ true
  IsWorthy (position p) = IsLive p ⊎ IsSettled p

  abbrev pub IsApproved : OpportunityRecord W → Type 0
  IsApproved r = r.decision.approved ≡ true

  -- What the scanner records: the positions, the log, and the events that wait for the writer.
  pub record IsRecorded (s : Scanner W) : Type 0 where
    pub book : IsAccounted s.positions
    pub log : All IsApproved s.opportunities.records
    pub events : All IsWorthy s.storage.events

  apply_refreshed-IsRecorded :
      (s : Scanner W) (r : Refreshed W)
      → Settles r
      → IsRecorded s
      → IsRecorded (apply_refreshed s r)
  unfolding apply_refreshed
  apply_refreshed-IsRecorded s skipped k h = h
  apply_refreshed-IsRecorded s (kept p) k h = record {
    book = update-IsAccounted s.positions p k h.book;
    log = h.log;
    events = h.events;
  }
  apply_refreshed-IsRecorded s (ended p) k h = record {
    book = close-IsAccounted s.positions p k h.book;
    log = h.log;
    events = enqueue-All IsWorthy s.storage (position p) (inr k) h.events;
  }

  refresh_loop-IsRecorded :
      (max_hold : Duration) (books : Map (OrderBookSnapshot W))
      (fundings : Map (Funding.Snapshot W)) (now : Time) (ps : List (Position W)) (s : Scanner W)
      → All IsLive ps
      → IsRecorded s
      → IsRecorded (refresh_loop max_hold books fundings now ps s)
  unfolding refresh_loop
  refresh_loop-IsRecorded max_hold books fundings now [] s live h = h
  refresh_loop-IsRecorded max_hold books fundings now (p ∷ ps) s live h =
      refresh_loop-IsRecorded max_hold books fundings now ps _ live.1 (
        apply_refreshed-IsRecorded s (refresh_position max_hold books fundings now p)
          (refresh_position-Settles max_hold books fundings now p live.0) h)

  pub refresh_positions-IsRecorded :
      (symbol : Text) (books : Map (OrderBookSnapshot W)) (fundings : Map (Funding.Snapshot W))
      (now : Time) (s : Scanner W)
      → IsRecorded s
      → IsRecorded (refresh_positions symbol books fundings now s)
  unfolding refresh_positions
  refresh_positions-IsRecorded symbol books fundings now s h =
      refresh_loop-IsRecorded s.cfg.strategy.max_hold_time books fundings now
        (open_positions_by_symbol s.positions symbol) s
        (All-open_positions_by_symbol IsLive symbol s.positions h.book.live) h
