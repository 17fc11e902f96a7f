-- ===== src/Storage.antt =====
-- internal/storage/redis.go: the queue of events, and what the writer sends to Redis. The server
-- behind the client is not part of the program: its replies are arguments. JSON encoding is an
-- argument too.
pub mod Queue
pub mod Server
use arb_bot.Prelude.{
  ℕ, ◌*◌, Bool, true, false, List, [], ◌∷◌, ◌++◌, Option, none, some, nat_eq, ◌==◌, if◌then◌else◌,
  ltb, ℤ, pos, negsuc, ◌^◌, ◌-◌, ◌-ℤ◌, leb_ℤ, length, Text, codes,
}
use arb_bot.Clock.{Duration, millisecond}
use arb_bot.Exchange.{OrderBookSnapshot, Error}
use arb_bot.State.Opportunities.{OpportunityRecord}
use arb_bot.State.Positions.{Position}

pub record Config : Type 0 where
  pub addr : Text
  pub password : Text
  pub db : ℤ
  pub history_limit : ℤ
  pub operation_timeout : Duration
  pub enabled : Bool

-- `Event`, whose `Type` says which of its fields is meant.
pub data Event (W : Type 0) : Type 0 where
  order_book : OrderBookSnapshot W → Event W
  opportunity : OpportunityRecord W → Event W
  position : Position W → Event W

-- The events that wait, the oldest first; `capacity` is that of the channel.
pub record Store (W : Type 0) : Type 0 where
  pub cfg : Config
  pub events : List (Event W)
  pub capacity : ℕ

is_zero_ℤ : ℤ → Bool
is_zero_ℤ (pos n) = n == 0
is_zero_ℤ _ = false

module _ {W : Type 0} where
  unfoldable pub new_store : Config → Store W
  unfolding is_zero_ℤ
  new_store cfg = record {
    cfg = record cfg {
      history_limit = if is_zero_ℤ cfg.history_limit then pos 1000 else cfg.history_limit;
      operation_timeout =
          if is_zero_ℤ cfg.operation_timeout
          then pos (500 * millisecond)
          else cfg.operation_timeout;
    };
    events = [];
    capacity = 4096;
  }

  unfoldable pub disabled_store : Store W
  disabled_store = record {
    cfg = record {
      addr = [];
      password = [];
      db = pos 0;
      history_limit = pos 0;
      operation_timeout = pos 0;
      enabled = false;
    };
    events = [];
    capacity = 0;
  }

  -- A full queue drops the event.
  unfoldable pub enqueue : Store W → Event W → Store W
  enqueue s event =
      if s.cfg.enabled
      then if ltb (length s.events) s.capacity
        then record s { events = s.events ++ event ∷ [] }
        else s
      else s

  take_first : List (Event W) → Option (Event W × List (Event W))
  take_first [] = none
  take_first (e ∷ es) = some (e, es)

  -- `event := <-s.events` in `Run`; `none` is a writer that waits.
  unfoldable pub dequeue : Store W → Option (Event W × Store W)
  unfolding take_first
  dequeue s = elim (take_first s.events) [
    | none ↦ none
    | some (e, es) ↦ some (e, record s { events = es })
  ]

-- A command to the server.
pub data Command : Type 0 where
  hset : Text → Text → Text → Command
  lpush : Text → Text → Command
  ltrim : Text → ℤ → ℤ → Command

abbrev pub key_order_book_latest : Text
key_order_book_latest = codes "arb:orderbooks:latest"

abbrev pub key_opportunity_hist : Text
key_opportunity_hist = codes "arb:history:opportunities"

abbrev pub key_position_hist : Text
key_position_hist = codes "arb:history:positions"

-- `json.Marshal` of each kind of value; `none` is an error.
pub record Encoder (W : Type 0) : Type 0 where
  pub book_json : OrderBookSnapshot W → Option Text
  pub record_json : OpportunityRecord W → Option Text
  pub position_json : Position W → Option Text

module _ {W : Type 0} (enc : Encoder W) where
  write_order_book : OrderBookSnapshot W → Option (List Command)
  write_order_book b = elim (enc.book_json b) [
    | none ↦ none
    | some payload ↦
        some (hset key_order_book_latest (b.exchange ++ (codes ":" ++ b.symbol)) payload ∷ [])
  ]

  -- `- 1` on `int64`, which wraps around at the smallest number.
  pub decrement : ℤ → ℤ
  unfolding ◌-ℤ◌
  decrement z = if leb_ℤ z (negsuc (2 ^ 63 - 1)) then pos (2 ^ 63 - 1) else z -ℤ pos 1

  pub push_json : ℤ → Text → Option Text → Option (List Command)
  unfolding decrement
  push_json history_limit key none = none
  push_json history_limit key (some payload) =
      some (lpush key payload ∷ ltrim key (pos 0) (decrement history_limit) ∷ [])

  -- The commands that `writeEvent` sends in one go; `none` is an error before any is sent.
  unfoldable pub write_event : Config → Event W → Option (List Command)
  unfolding write_order_book push_json
  write_event cfg (order_book b) = write_order_book b
  write_event cfg (opportunity r) =
      push_json cfg.history_limit key_opportunity_hist (enc.record_json r)
  write_event cfg (position p) = push_json cfg.history_limit key_position_hist (enc.position_json p)
