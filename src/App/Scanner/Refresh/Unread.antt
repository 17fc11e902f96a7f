-- ===== src/App/Scanner/Refresh/Unread.antt =====
-- A refresh does not read the settings either.
use arb_bot.Prelude.{◌≡◌, refl, ◌∙◌, ap, List, [], ◌∷◌, Text, Map}
use arb_bot.Clock.{Time, Duration}
use arb_bot.Float.{Float64}
use arb_bot.Exchange.{OrderBookSnapshot}
use arb_bot.Funding
use arb_bot.State.Positions.{Position, open_positions_by_symbol}
use arb_bot.App.Scanner.{Scanner}
use arb_bot.App.Scanner.Unread.{Unread, reset}
use arb_bot.App.Scanner.Refresh.{
  Refreshed, skipped, kept, ended, apply_refreshed, refresh_position, refresh_loop,
  refresh_positions,
}

module _ {W : Type 0} ⦃f : Float64 W⦄ (x : Unread W) where
  apply_refreshed-reset :
      (s : Scanner W) (r : Refreshed W)
      → apply_refreshed (reset x s) r ≡ reset x (apply_refreshed s r)
  unfolding apply_refreshed
  apply_refreshed-reset s skipped = refl
  apply_refreshed-reset s (kept p) = refl
  apply_refreshed-reset s (ended p) = refl

  refresh_loop-reset :
      (max_hold : Duration) (books : Map (OrderBookSnapshot W))
      (fundings : Map (Funding.Snapshot W)) (now : Time) (ps : List (Position W)) (s : Scanner W)
      → refresh_loop max_hold books fundings now ps (reset x s)
        ≡ reset x (refresh_loop max_hold books fundings now ps s)
  unfolding refresh_loop
  refresh_loop-reset max_hold books fundings now [] s = refl
  refresh_loop-reset max_hold books fundings now (p ∷ ps) s =
      let r = refresh_position max_hold books fundings now p in
      ap (refresh_loop max_hold books fundings now ps) (apply_refreshed-reset s r)
      ∙ refresh_loop-reset max_hold books fundings now ps (apply_refreshed s r)

  pub refresh_positions-reset :
      (symbol : Text) (books : Map (OrderBookSnapshot W)) (fundings : Map (Funding.Snapshot W))
      (now : Time) (s : Scanner W)
      → refresh_positions symbol books fundings now (reset x s)
        ≡ reset x (refresh_positions symbol books fundings now s)
  unfolding refresh_positions
  refresh_positions-reset symbol books fundings now s =
      refresh_loop-reset s.cfg.strategy.max_hold_time books fundings now
        (open_positions_by_symbol s.positions symbol) s
