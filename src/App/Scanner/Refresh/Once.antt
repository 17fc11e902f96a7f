-- ===== src/App/Scanner/Refresh/Once.antt =====
-- All that a call of `refreshPositions` does: to the open positions, to the history, and to the queue.
use mathlib.Core.List.{append_assoc, reverse, reverse-cons}
use arb_bot.Prelude.{
  ◌≡◌, refl, sym, ap, ◌∙◌, List, [], ◌∷◌, ◌++◌, map, none, some, arith, ◌==◌, text_eq,
  if◌then◌else◌, Text, Map, lookup, pos_part, take, take-eq_of_le, take-cons-take,
}
use arb_bot.Clock.{Time, Duration}
use arb_bot.Float.{Float64}
use arb_bot.Exchange.{OrderBookSnapshot}
use arb_bot.Funding
use arb_bot.State.Positions
use arb_bot.State.Positions.{Position, PositionBook, open_positions_by_symbol}
use arb_bot.State.Positions.Book.{IsBook, close_lem}
use arb_bot.State.Positions.Listing.{Distinct, open_positions_by_symbol-Distinct}
use arb_bot.Storage.{position}
use arb_bot.Storage.Queue.{enqueue_all}
use arb_bot.App.Scanner.{Scanner}
use arb_bot.App.Scanner.Refresh.{
  Refreshed, skipped, kept, ended, refresh_position, apply_refreshed, refresh_loop,
  refresh_positions,
}
use arb_bot.App.Scanner.Refresh.Loop.{remains, apply_refreshed-IsBook, lookup-refresh_positions}

module _ {W : Type 0} where
  -- The position that a round ends, before others.
  abbrev with_ended : Refreshed W → List (Position W) → List (Position W)
  with_ended skipped ps = ps
  with_ended (kept q) ps = ps
  with_ended (ended q) ps = q ∷ ps

module _ {W : Type 0} ⦃f : Float64 W⦄ (max_hold : Duration) (books : Map (OrderBookSnapshot W))
    (fundings : Map (Funding.Snapshot W)) (now : Time) where
  -- The positions that the treatment of each position of a list ends, in the order of the list.
  pub all_ended : List (Position W) → List (Position W)
  all_ended [] = []
  all_ended (p ∷ ps) = with_ended (refresh_position max_hold books fundings now p) (all_ended ps)

  apply_refreshed-limit :
      (s : Scanner W) (r : Refreshed W) → (apply_refreshed s r).positions.limit ≡ s.positions.limit
  unfolding apply_refreshed Positions.update Positions.close
  apply_refreshed-limit s skipped = refl
  apply_refreshed-limit s (kept q) = ground arith
  apply_refreshed-limit s (ended q) = refl

  -- The history is the newest part of a list that a round may extend by one position.
  apply_refreshed-closed :
      (s : Scanner W) (r : Refreshed W) (full : List (Position W))
      → IsBook s.positions
      → s.positions.closed ≡ take (pos_part s.positions.limit) full
      → (apply_refreshed s r).positions.closed
        ≡ take (pos_part s.positions.limit) (with_ended r full)
  unfolding apply_refreshed Positions.update
  apply_refreshed-closed s skipped full h e = e
  apply_refreshed-closed s (kept q) full h e = ground (arith, e)
  apply_refreshed-closed s (ended q) full h e =
      (close_lem s.positions q q.id h).1 ∙ rw e (take-cons-take (pos_part s.positions.limit) q full)

  refresh_loop-closed :
      (ps : List (Position W)) (s : Scanner W) (full : List (Position W))
      → IsBook s.positions
      → s.positions.closed ≡ take (pos_part s.positions.limit) full
      → (refresh_loop max_hold books fundings now ps s).positions.closed
        ≡ take (pos_part s.positions.limit) (reverse (all_ended ps) ++ full)
  unfolding refresh_loop all_ended
  refresh_loop-closed [] s full h e = e
  refresh_loop-closed (p ∷ ps) s full h e =
      let r = refresh_position max_hold books fundings now p in
      refresh_loop-closed ps (apply_refreshed s r) (with_ended r full)
        (apply_refreshed-IsBook s r h)
        (apply_refreshed-closed s r full h e
          ∙ ap (λ l. take (pos_part l) (with_ended r full)) (sym (apply_refreshed-limit s r)))
      ∙ ap (λ l. take (pos_part l) (reverse (all_ended ps) ++ with_ended r full))
          (apply_refreshed-limit s r)
      ∙ ap (take (pos_part s.positions.limit)) (moved r (all_ended ps) full)
    where
      moved :
          (r : Refreshed W) (ends full : List (Position W))
          → reverse ends ++ with_ended r full ≡ reverse (with_ended r ends) ++ full
      moved skipped ends full = refl
      moved (kept q) ends full = refl
      moved (ended q) ends full =
          rw (reverse-cons q ends) (sym (append_assoc (reverse ends) (q ∷ []) full))

  refresh_loop-storage :
      (ps : List (Position W)) (s : Scanner W)
      → (refresh_loop max_hold books fundings now ps s).storage
        ≡ enqueue_all s.storage (map position (all_ended ps))
  unfolding refresh_loop all_ended apply_refreshed
  refresh_loop-storage [] s = refl
  refresh_loop-storage (p ∷ ps) s =
      let r = refresh_position max_hold books fundings now p in
      refresh_loop-storage ps (apply_refreshed s r) ∙ queued r (all_ended ps)
    where
      queued :
          (r : Refreshed W) (ends : List (Position W))
          → enqueue_all (apply_refreshed s r).storage (map position ends)
            ≡ enqueue_all s.storage (map position (with_ended r ends))
      queued skipped ends = refl
      queued (kept q) ends = refl
      queued (ended q) ends = refl

module _ {W : Type 0} ⦃f : Float64 W⦄ where
  -- What a refresh makes of the open positions, of the history and of the queue.
  pub record Treats (symbol : Text) (books : Map (OrderBookSnapshot W))
      (fundings : Map (Funding.Snapshot W)) (now : Time) (s t : Scanner W) : Type 0 where
    pub held :
        (id : Text)
        → lookup id t.positions.held ≡ elim (lookup id s.positions.held) [
          | none ↦ none
          | some p ↦
              if p.symbol == symbol
              then remains p (refresh_position s.cfg.strategy.max_hold_time books fundings now p)
              else some p
        ]
    pub distinct : Distinct (open_positions_by_symbol s.positions symbol)
    pub closed :
        t.positions.closed
        ≡ take (pos_part s.positions.limit) (
            reverse (
              all_ended s.cfg.strategy.max_hold_time books fundings now
                (open_positions_by_symbol s.positions symbol))
            ++ s.positions.closed)
    pub queued :
        t.storage
        ≡ enqueue_all s.storage (
            map position (
              all_ended s.cfg.strategy.max_hold_time books fundings now
                (open_positions_by_symbol s.positions symbol)))

  -- When the position book is well formed, a refresh for a symbol treats every open position of that
  -- symbol exactly once. Under its id there is then the position as it was, or with a new mark, or
  -- nothing, as the treatment of that position alone says, and every other id keeps what it had. The
  -- positions that these treatments end, taken over the open positions of the symbol, whose ids are
  -- distinct, are put in front of the history one after the other, each once, and the history is cut to its
  -- limit; and each of them is queued once for Redis, in the same order, and nothing else is queued.
  pub refresh_positions-Treats :
      (symbol : Text) (books : Map (OrderBookSnapshot W)) (fundings : Map (Funding.Snapshot W))
      (now : Time) (s : Scanner W)
      → IsBook s.positions
      → Treats symbol books fundings now s (refresh_positions symbol books fundings now s)
  unfolding refresh_positions
  refresh_positions-Treats symbol books fundings now s h =
      let ps = open_positions_by_symbol s.positions symbol in
      let max_hold = s.cfg.strategy.max_hold_time in
      record {
        held = λ id. lookup-refresh_positions symbol books fundings now s id h;
        distinct = open_positions_by_symbol-Distinct symbol s.positions h;
        closed =
            refresh_loop-closed max_hold books fundings now ps s s.positions.closed h
              (sym (take-eq_of_le (pos_part s.positions.limit) s.positions.closed h.bounded));
        queued = refresh_loop-storage max_hold books fundings now ps s;
      }
