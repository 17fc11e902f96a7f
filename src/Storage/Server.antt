-- ===== src/Storage/Server.antt =====
-- internal/storage/redis.go: the loop of the writer, and the reads of the history. The Redis client is an
-- argument, with the state of its server.
pub mod History
pub mod Saved
pub mod Recent
pub mod Stop
use mathlib.Core.List.{filter_map}
use arb_bot.Prelude.{
  Bool, true, false, List, [], ◌∷◌, Option, none, some, if◌then◌else◌, ℤ, pos, ◌-ℤ◌, leb_ℤ, Text,
  codes,
}
use arb_bot.Exchange.{Error, Fallible, ok, failed}
use arb_bot.State.Opportunities.{OpportunityRecord}
use arb_bot.State.Positions.{Position}
use arb_bot.Storage.{
  Config, Event, Command, Encoder, write_event, key_opportunity_hist, key_position_hist,
}

-- The commands of one pipeline, with an error beside their effect, and `LRANGE`.
pub record Client (S : Type 0) : Type 0 where
  pub exec : S → List Command → S × Option Error
  pub lrange : S → Text → ℤ → ℤ → Fallible (List Text)

-- What one turn of the loop of `Run` finds: a context that is done, or an event.
pub data Turn (W : Type 0) : Type 0 where
  done : Turn W
  received : Event W → Turn W

pub record Writer (S : Type 0) : Type 0 where
  pub server : S
  pub returned : Bool

-- `json.Unmarshal` of the values of the history.
pub record Decoder (W : Type 0) : Type 0 where
  pub position : Text → Option (Position W)
  pub opportunity : Text → Option (OpportunityRecord W)

abbrev pub storage_disabled : Error
storage_disabled = codes "redis storage disabled"

module _ {S : Type 0} (client : Client S) where
  lrange : S → Text → ℤ → Fallible (List Text)
  unfolding ◌-ℤ◌
  lrange server key limit = client.lrange server key (pos 0) (limit -ℤ pos 1)

default_limit : ℤ → ℤ
default_limit limit = if leb_ℤ limit (pos 0) then pos 100 else limit

-- The values that can be decoded, in their order.
decode_all : {A : Type 0} → (Text → Option A) → Fallible (List Text) → Fallible (List A)
unfolding filter_map
decode_all decode (failed e) = failed e
decode_all decode (ok values) = ok (filter_map decode values)

module _ {W S : Type 0} (client : Client S) where
  -- One event. An error is logged and the loop goes on.
  unfoldable pub write_logged : Encoder W → Config → S → Event W → S
  write_logged enc cfg server event = elim (write_event enc cfg event) [
    | none ↦ server
    | some commands ↦ (client.exec server commands).0
  ]

  pub write_loop : Encoder W → Config → S → List (Turn W) → Writer S
  unfolding write_logged
  write_loop enc cfg server [] = record { server = server; returned = false }
  write_loop enc cfg server (done ∷ turns) = record { server = server; returned = true }
  write_loop enc cfg server (received event ∷ turns) =
      write_loop enc cfg (write_logged enc cfg server event) turns

  -- A disabled writer receives nothing, and waits for the context.
  idle : S → List (Turn W) → Writer S
  idle server [] = record { server = server; returned = false }
  idle server (done ∷ turns) = record { server = server; returned = true }
  idle server (received event ∷ turns) = idle server turns

  unfoldable pub run : Encoder W → Config → S → List (Turn W) → Writer S
  unfolding write_loop idle
  run enc cfg server turns =
      if cfg.enabled then write_loop enc cfg server turns else idle server turns

  unfoldable pub recent_positions : Decoder W → Config → S → ℤ → Fallible (List (Position W))
  unfolding decode_all lrange default_limit
  recent_positions dec cfg server limit =
      if cfg.enabled
      then decode_all dec.position (lrange client server key_position_hist (default_limit limit))
      else failed storage_disabled

  unfoldable pub recent_opportunities :
      Decoder W → Config → S → ℤ → Fallible (List (OpportunityRecord W))
  unfolding decode_all lrange default_limit
  recent_opportunities dec cfg server limit =
      if cfg.enabled
      then decode_all dec.opportunity
          (lrange client server key_opportunity_hist (default_limit limit))
      else failed storage_disabled
