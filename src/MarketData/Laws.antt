-- ===== src/MarketData/Laws.antt =====
-- The order book store: what an update changes, that every book is filed under its own names, and
-- when a book is fresh.
use arb_bot.Prelude.{
  ℕ, ◌≡◌, ◌≤◌, ◌<◌, ◌+◌, ◌^◌, true, ◌&&◌, ◌↔◌, ◌≢◌, some, arith, if◌then◌else◌, ◌==◌, text_eq, Text,
  lookup, IsMap, pos,
}
use arb_bot.Clock.{Time}
use arb_bot.Clock.Bounds.{sub_time-eq}
use arb_bot.Exchange.{OrderBookSnapshot}
use arb_bot.Tables.Filed
use arb_bot.MarketData.{Store, new_store, apply, snapshot, is_fresh}

module _ {W : Type 0} where
  -- The maps have distinct keys, and a book is filed under its own symbol and exchange.
  abbrev pub IsFiled : Store W → Type 0
  IsFiled s = Filed.IsFiled (λ b. b.symbol) (λ b. b.exchange) s.books

  pub new_store-IsFiled : IsFiled new_store
  unfolding new_store
  new_store-IsFiled = Filed.nil-IsFiled _ _

  pub apply-IsFiled : (s : Store W) (b : OrderBookSnapshot W) → IsFiled s → IsFiled (apply s b)
  unfolding apply
  apply-IsFiled s b h = Filed.put-IsFiled _ _ b s.books h

  -- In a well-filed store, after an update the updated book is read under its symbol and exchange,
  -- and every other cell reads as before.
  pub lookup-snapshot-apply :
      (s : Store W) (b : OrderBookSnapshot W) (symbol name : Text)
      → IsFiled s
      → lookup name (snapshot (apply s b) symbol) ≡ (
          if b.symbol == symbol && b.exchange == name
          then some b
          else lookup name (snapshot s symbol))
  unfolding snapshot apply
  lookup-snapshot-apply s b symbol name h = Filed.lookup-snapshot-put _ _ b symbol name s.books h

  pub snapshot-IsMap : (s : Store W) (symbol : Text) → IsFiled s → IsMap (snapshot s symbol)
  unfolding snapshot
  snapshot-IsMap s symbol h = Filed.snapshot-IsMap _ _ symbol s.books h

  -- A book that is read for a symbol and an exchange bears these names.
  pub lookup-snapshot-named :
      (s : Store W) (symbol name : Text) {b : OrderBookSnapshot W}
      → IsFiled s
      → lookup name (snapshot s symbol) ≡ some b
      → (b.symbol ≡ symbol) × (b.exchange ≡ name)
  unfolding snapshot
  lookup-snapshot-named s symbol name h e = Filed.lookup-snapshot-named _ _ symbol name s.books h e

  -- For instants below 2^63 nanoseconds and an age limit that is not negative, a book is fresh
  -- exactly when it bears a time stamp and is at most as old as the limit; a stamp later than `now`
  -- counts as fresh.
  is_fresh_iff :
      (b : OrderBookSnapshot W) (age : ℕ) (now : Time)
      → b.updated_at < 2 ^ 63
      → now < 2 ^ 63
      → (is_fresh b (pos age) now ≡ true) ↔ ((b.updated_at ≢ 0) × (now ≤ b.updated_at + age))
  unfolding is_fresh
  is_fresh_iff b age now h k = ground (arith, sub_time-eq now b.updated_at k h)
