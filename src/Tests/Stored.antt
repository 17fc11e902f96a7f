-- ===== src/Tests/Stored.antt =====
-- Examples of the writer, of a server that keeps lists, and of the API.
use mathlib.Core.List.{foldl, Memᴰ}
use arb_bot.Prelude.{
  suc, ◌≡◌, ◌↔◌, refl, true, List, [], ◌∷◌, map, none, some, inl, inr, Bool-cases, text_eq,
  text_beq_iff, ◌==◌, if◌then◌else◌, pos, pos_part, take, Text, codes,
}
use arb_bot.Clock.{second}
use arb_bot.Float.Fixed.{Fixed, fixed_float}
use arb_bot.Exchange.{ok}
use arb_bot.State.Positions.{Position}
use arb_bot.Storage.{Config, Event, order_book, position, Command, hset, lpush, ltrim, Encoder}
use arb_bot.Storage.Server.{Client, Turn, received, done, Decoder, run}
use arb_bot.Storage.Server.History.{IsRedis}
use arb_bot.Storage.Server.Stop.{run-returned_iff}
use arb_bot.Execution.{paper_open, paper_order, mode_paper}
use arb_bot.Exchange.{buy, sell}
use arb_bot.App.Scanner.Update.{new_position}
use arb_bot.Api.{Reader}
use arb_bot.Tests.Data.{now, long_book, found}

-- A server that keeps lists only.
abbrev pub Lists : Type 0
Lists = Text → List Text

abbrev apply_command : Lists → Command → Lists
apply_command s (hset hash field value) = s
apply_command s (lpush at value) = λ key. if at == key then value ∷ s key else s key
apply_command s (ltrim at start stop) =
    λ key. if at == key then take (suc (pos_part stop)) (s key) else s key

abbrev pub client : Client Lists
client = record {
  exec = λ s commands. (foldl apply_command s commands, none);
  lrange = λ s key start stop. ok (take (suc (pos_part stop)) (s key));
}

abbrev pub lists_of : Lists → Text → List Text
lists_of s = s

pub client-IsRedis : IsRedis client lists_of
client-IsRedis = record {
  hset_law = λ s hash field value key. refl;
  push_law = λ s at value key n. elim (Bool-cases (at == key)) [
    | inl same ↦ rw ((text_beq_iff at key).0 same) (rw ((text_beq_iff key key).1 refl) refl)
    | inr other ↦ rw other refl
  ];
  lrange_law = λ s key n. refl;
}

abbrev opened : Position Fixed
opened = new_position found (record {
  opportunity_id = found.id;
  mode = mode_paper;
  long_order = paper_order found buy;
  short_order = paper_order found sell;
  status = paper_open;
  started_at = now;
  finished_at = now;
})

abbrev pub encoder : Encoder Fixed
encoder = record { book_json = λ b. none; record_json = λ r. none; position_json = λ p. some p.id }

abbrev decoder : Decoder Fixed
decoder = record { position = λ text. some opened; opportunity = λ text. none }

abbrev storage_cfg : Config
storage_cfg = record {
  addr = codes "redis:6379";
  password = [];
  db = pos 0;
  history_limit = pos 10;
  operation_timeout = pos second;
  enabled = true;
}

abbrev events : List (Event Fixed)
events = order_book long_book ∷ position opened ∷ position opened ∷ []

abbrev pub empty : Lists
empty key = []

abbrev pub reader : Reader Fixed Lists
reader = record {
  client = client;
  server = (run client encoder storage_cfg empty (map received events)).server;
  decoder = decoder;
  parse_int = λ text. some (pos 5);
}

abbrev turns : List (Turn Fixed)
turns = received (position opened) ∷ done ∷ []

run-returned_iff_example :
    ((run client encoder storage_cfg empty turns).returned ≡ true) ↔ Memᴰ done turns
run-returned_iff_example = run-returned_iff client encoder storage_cfg empty turns
