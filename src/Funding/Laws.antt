-- ===== src/Funding/Laws.antt =====
-- The funding store, and the synthetic snapshots that enter it.
use arb_bot.Prelude.{
  ◌≡◌, ◌&&◌, List, [], ◌∷◌, some, arith, if◌then◌else◌, ◌==◌, text_eq, Text, lookup, IsMap, All,
}
use arb_bot.Clock.{Time}
use arb_bot.Float.{Float64, IsIeee, nought, ◌≼◌}
use arb_bot.Float.Order.{le_of_lt}
use arb_bot.Exchange.{Level, OrderBookSnapshot}
use arb_bot.Exchange.Levels.{IsPositive}
use arb_bot.Tables.Filed
use arb_bot.Funding.{
  Snapshot, Config, Store, apply, snapshot, new_store, midpoint, mid_of, first_price,
  first_of_sides, mark_of, synthetic_snapshot, apply_synthetic_from_order_book,
}

module _ {W : Type 0} where
  abbrev pub IsFiled : Store W → Type 0
  IsFiled s = Filed.IsFiled (λ n. n.symbol) (λ n. n.exchange) s.snapshots

  pub apply-IsFiled : (s : Store W) (n : Snapshot W) → IsFiled s → IsFiled (apply s n)
  unfolding apply
  apply-IsFiled s n h = Filed.put-IsFiled _ _ n s.snapshots h

  pub snapshot-IsMap : (s : Store W) (symbol : Text) → IsFiled s → IsMap (snapshot s symbol)
  unfolding snapshot
  snapshot-IsMap s symbol h = Filed.snapshot-IsMap _ _ symbol s.snapshots h

module _ {W : Type 0} ⦃f : Float64 W⦄ where
  pub new_store-IsFiled : (cfg : Config W) → IsFiled (new_store cfg)
  unfolding new_store
  new_store-IsFiled cfg = Filed.nil-IsFiled _ _

  -- After an order book of a well-filed store the synthetic snapshot of its symbol and exchange is
  -- read back, and every other cell reads as before.
  pub lookup-snapshot-synthetic :
      (clock : Time) (s : Store W) (b : OrderBookSnapshot W) (symbol name : Text)
      → IsFiled s
      → lookup name (snapshot (apply_synthetic_from_order_book clock s b).0 symbol) ≡ (
          if b.symbol == symbol && b.exchange == name
          then some (synthetic_snapshot clock b s.cfg)
          else lookup name (snapshot s symbol))
  unfolding apply_synthetic_from_order_book snapshot apply synthetic_snapshot
  lookup-snapshot-synthetic clock s b symbol name h =
      Filed.lookup-snapshot-put _ _ (synthetic_snapshot clock b s.cfg) symbol name s.snapshots h

  module _ (laws : IsIeee W) where
    open laws use {nought_number, le_add_right, le_trans, div_nonneg}

    first_of_sides_nonneg :
        (bids asks : List (Level W))
        → All IsPositive bids
        → All IsPositive asks
        → nought ≼ first_of_sides bids asks
    unfolding first_of_sides
    first_of_sides_nonneg bids (ask ∷ asks) h k = le_of_lt laws _ _ k.0.price_pos
    first_of_sides_nonneg (bid ∷ bids) [] h k = le_of_lt laws _ _ h.0.price_pos
    first_of_sides_nonneg [] [] h k = nought_number

    mid_of_nonneg :
        (bids asks : List (Level W))
        → All IsPositive bids
        → All IsPositive asks
        → nought ≼ mid_of bids asks
    unfolding mid_of
    mid_of_nonneg (bid ∷ bids) (ask ∷ asks) h k =
        let p = le_of_lt laws _ _ h.0.price_pos in
        div_nonneg _ 1 (omega arith)
          (le_trans _ _ _ p (le_add_right bid.price ask.price p (le_of_lt laws _ _ k.0.price_pos)))
    mid_of_nonneg _ _ h k = nought_number

    -- For floats that obey IEEE 754: a book whose levels are positive has a mark price that is a number, and not negative.
    pub mark_of_nonneg :
        (b : OrderBookSnapshot W)
        → All IsPositive b.bids
        → All IsPositive b.asks
        → nought ≼ mark_of b
    unfolding mark_of midpoint first_price
    mark_of_nonneg b h k =
        ground (arith, mid_of_nonneg b.bids b.asks h k, first_of_sides_nonneg b.bids b.asks h k)
