-- ===== src/App/Scanner/Refresh/Loop.antt =====
-- The loop of `refreshPositions` treats every open position of the symbol once.
use arb_bot.Prelude.{
  ◌≡◌, refl, List, [], ◌∷◌, Option, none, some, arith, ◌==◌, text_eq, text_beq_iff, if◌then◌else◌,
  Text, Map, lookup, lookup-insert, lookup-erase,
}
use arb_bot.Clock.{Time, Duration}
use arb_bot.Float.{Float64}
use arb_bot.Exchange.{OrderBookSnapshot}
use arb_bot.Funding
use arb_bot.State.Positions
use arb_bot.State.Positions.{Position, PositionBook, open_positions_by_symbol}
use arb_bot.State.Positions.Book.{IsBook, update-IsBook, close-IsBook}
use arb_bot.State.Positions.Listing.{
  find, NotIn, Distinct, find-NotIn, find-open_positions_by_symbol,
  open_positions_by_symbol-Distinct,
}
use arb_bot.App.Scanner.{Scanner}
use arb_bot.App.Scanner.Refresh.{
  Refreshed, skipped, kept, ended, refresh_position, apply_refreshed, refresh_loop,
  refresh_positions,
}
use arb_bot.App.Scanner.Refresh.Decision.{Keeps, refresh_position-Keeps}

module _ {W : Type 0} where
  -- The position that a round leaves open.
  abbrev pub remains : Position W → Refreshed W → Option (Position W)
  remains p skipped = some p
  remains p (kept q) = some q
  remains p (ended q) = none

  -- Each position of the list is the open one of its id.
  abbrev Held : List (Position W) → PositionBook W → Type 0
  Held [] b = Unit {0}
  Held (p ∷ ps) b = (lookup p.id b.held ≡ some p) × Held ps b

  found→Held :
      (b : PositionBook W) (ps : List (Position W))
      → Distinct ps
      → ((id : Text) (p : Position W) → find id ps ≡ some p → lookup id b.held ≡ some p)
      → Held ps b
  unfolding find
  found→Held b [] d h = tt
  found→Held b (p ∷ ps) d h = (
    h p.id p (ground (arith, text_beq_iff p.id p.id)),
    found→Held b ps d.1
        λ id q e. h id q (ground (arith, e, text_beq_iff p.id id, find-NotIn id ps, d.0)),
  )

  by_symbol-Held :
      (symbol : Text) (b : PositionBook W) → IsBook b → Held (open_positions_by_symbol b symbol) b
  by_symbol-Held symbol b h =
      found→Held b (open_positions_by_symbol b symbol)
        (open_positions_by_symbol-Distinct symbol b h)
        λ id p e. ground (arith, e, find-open_positions_by_symbol id symbol b h)

module _ {W : Type 0} ⦃f : Float64 W⦄ where
  pub apply_refreshed-IsBook :
      (s : Scanner W) (r : Refreshed W)
      → IsBook s.positions
      → IsBook (apply_refreshed s r).positions
  unfolding apply_refreshed
  apply_refreshed-IsBook s skipped h = h
  apply_refreshed-IsBook s (kept q) h = update-IsBook s.positions q h
  apply_refreshed-IsBook s (ended q) h = close-IsBook s.positions q h

  -- A round on an open position changes that one alone.
  lookup-apply_refreshed :
      (s : Scanner W) (p : Position W) (r : Refreshed W) (id : Text)
      → IsBook s.positions
      → lookup p.id s.positions.held ≡ some p
      → Keeps p r
      → lookup id (apply_refreshed s r).positions.held
        ≡ (if p.id == id then remains p r else lookup id s.positions.held)
  unfolding apply_refreshed Positions.update Positions.close
  lookup-apply_refreshed s p skipped id h e k = ground (arith, text_beq_iff p.id id)
  lookup-apply_refreshed s p (kept q) id h e k =
      rw k.0.id (ground (arith, e, lookup-insert p.id id q s.positions.held))
  lookup-apply_refreshed s p (ended q) id h e k =
      rw k.0.id (lookup-erase p.id id s.positions.held h.keys)

  apply_refreshed-Held :
      (s : Scanner W) (p : Position W) (r : Refreshed W) (ps : List (Position W))
      → IsBook s.positions
      → lookup p.id s.positions.held ≡ some p
      → Keeps p r
      → NotIn p.id ps
      → Held ps s.positions
      → Held ps (apply_refreshed s r).positions
  apply_refreshed-Held s p r [] h e k n held = tt
  apply_refreshed-Held s p r (q ∷ ps) h e k n held = (
    ground (arith, lookup-apply_refreshed s p r q.id h e k, text_beq_iff p.id q.id, n.0, held.0),
    apply_refreshed-Held s p r ps h e k n.1 held.1,
  )

  -- What is open under an id when the loop has treated the position found in its list.
  abbrev after_round :
      Duration
      → Map (OrderBookSnapshot W)
      → Map (Funding.Snapshot W)
      → Time
      → Option (Position W)
      → Option (Position W)
      → Option (Position W)
  after_round max_hold books fundings now none before = before
  after_round max_hold books fundings now (some p) before =
      remains p (refresh_position max_hold books fundings now p)

  module _ (max_hold : Duration) (books : Map (OrderBookSnapshot W))
      (fundings : Map (Funding.Snapshot W)) (now : Time) where
    refresh_loop-IsBook :
        (ps : List (Position W)) (s : Scanner W)
        → IsBook s.positions
        → IsBook (refresh_loop max_hold books fundings now ps s).positions
    unfolding refresh_loop
    refresh_loop-IsBook [] s h = h
    refresh_loop-IsBook (p ∷ ps) s h =
        let r = refresh_position max_hold books fundings now p in
        refresh_loop-IsBook ps (apply_refreshed s r) (apply_refreshed-IsBook s r h)

    lookup-refresh_loop :
        (ps : List (Position W)) (s : Scanner W) (id : Text)
        → IsBook s.positions
        → Distinct ps
        → Held ps s.positions
        → lookup id (refresh_loop max_hold books fundings now ps s).positions.held
          ≡ after_round max_hold books fundings now (find id ps) (lookup id s.positions.held)
    unfolding refresh_loop find
    lookup-refresh_loop [] s id h d held = refl
    lookup-refresh_loop (p ∷ ps) s id h d held =
        let r = refresh_position max_hold books fundings now p in
        let k = refresh_position-Keeps max_hold books fundings now p in
        ground (
          arith,
          lookup-refresh_loop ps (apply_refreshed s r) id (apply_refreshed-IsBook s r h) d.1
              (apply_refreshed-Held s p r ps h held.0 k d.0 held.1),
          lookup-apply_refreshed s p r id h held.0 k,
          text_beq_iff p.id id,
          find-NotIn p.id ps d.0,
        )

  pub refresh_positions-IsBook :
      (symbol : Text) (books : Map (OrderBookSnapshot W)) (fundings : Map (Funding.Snapshot W))
      (now : Time) (s : Scanner W)
      → IsBook s.positions
      → IsBook (refresh_positions symbol books fundings now s).positions
  unfolding refresh_positions
  refresh_positions-IsBook symbol books fundings now s h =
      refresh_loop-IsBook s.cfg.strategy.max_hold_time books fundings now
        (open_positions_by_symbol s.positions symbol) s h

  -- When the position book is well formed, a refresh for a symbol treats every open position of that
  -- symbol once: it stays as it is, or with a new mark, or is no longer open, as the treatment of that position alone says.
  -- Every other id keeps what was open under it.
  pub lookup-refresh_positions :
      (symbol : Text) (books : Map (OrderBookSnapshot W)) (fundings : Map (Funding.Snapshot W))
      (now : Time) (s : Scanner W) (id : Text)
      → IsBook s.positions
      → lookup id (refresh_positions symbol books fundings now s).positions.held
        ≡ elim (lookup id s.positions.held) [
          | none ↦ none
          | some p ↦
              if p.symbol == symbol
              then remains p (refresh_position s.cfg.strategy.max_hold_time books fundings now p)
              else some p
        ]
  unfolding refresh_positions
  lookup-refresh_positions symbol books fundings now s id h = ground (
    arith,
    lookup-refresh_loop s.cfg.strategy.max_hold_time books fundings now
        (open_positions_by_symbol s.positions symbol) s id h
        (open_positions_by_symbol-Distinct symbol s.positions h)
        (by_symbol-Held symbol s.positions h),
    find-open_positions_by_symbol id symbol s.positions h,
  )
