-- ===== src/MarketData.antt =====
-- internal/marketdata/orderbook.go: the latest order book of each symbol and exchange. The lock makes
-- each operation one step.
pub mod Laws
use arb_bot.Prelude.{Bool, false, [], ℤ, leb_ℤ, if◌then◌else◌, Text, Map}
use arb_bot.Clock.{Time, Duration, is_zero, sub_time}
use arb_bot.Exchange.{OrderBookSnapshot}
use arb_bot.Tables
use arb_bot.Tables.{Table}

pub record Store (W : Type 0) : Type 0 where
  pub books : Table (OrderBookSnapshot W)

module _ {W : Type 0} where
  unfoldable pub new_store : Store W
  new_store = record { books = [] }

  unfoldable pub apply : Store W → OrderBookSnapshot W → Store W
  apply s b = record { books = Tables.put b.symbol b.exchange b s.books }

  unfoldable pub snapshot : Store W → Text → Map (OrderBookSnapshot W)
  snapshot s symbol = Tables.snapshot symbol s.books

  unfoldable pub snapshot_all : Store W → Table (OrderBookSnapshot W)
  snapshot_all s = Tables.snapshot_all s.books

  unfoldable pub is_fresh : OrderBookSnapshot W → Duration → Time → Bool
  is_fresh b max_age now =
      if is_zero b.updated_at then false else leb_ℤ (sub_time now b.updated_at) max_age
