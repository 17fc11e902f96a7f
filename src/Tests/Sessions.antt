-- ===== src/Tests/Sessions.antt =====
-- Examples of a connector: what it writes, what it sends, and when it stops.
use arb_bot.Exchange.Levels.{parse_string_levels, trim_levels}
use arb_bot.Prelude.{
  ℕ, ◌≤◌, ◌≡◌, refl, false, List, [], ◌∷◌, ◌++◌, Option, none, some, All, arith, text_beq, codes,
  pos,
}
use arb_bot.Float.Fixed.{Fixed, fixed_float}
use arb_bot.Exchange.{bybit, htx, Error, ok, failed}
use arb_bot.Exchange.Symbols.{slash_symbol, bybit_symbol}
use arb_bot.Exchange.Messages.{parse_snapshot}
use arb_bot.Exchange.Messages.Answers.{IsBase, IsAnswer, bybit_answer, Gives, IsAnswer-Gives}
use arb_bot.Exchange.Subscribe.{
  subscribe, endpoint, bybit_topic, handle_control, ControlDecoder, htx_pong,
}
use arb_bot.Exchange.Session.{Turn, Attempt, returned, Codec, payload_of, run, start}
use arb_bot.Exchange.Session.Laws.{IsRead, start-books}
use arb_bot.Exchange.Session.Retry.{Retries, start-Retries}
use arb_bot.Exchange.Session.Delivery.{Reads, nothing, one, expected, run-Delivers}
use arb_bot.Tests.Data.{now, symbol}
use arb_bot.Tests.Exchange.{base, base_filled, decoder, message, read}

abbrev control : ControlDecoder
control = record { htx_ping = λ payload. some (pos 7); kucoin_control = λ payload. none }

abbrev pub codec : Codec Fixed
codec = record { messages = decoder; control = control; ungzip = λ payload. ok payload }

ping_answered : handle_control control htx [] ≡ some (htx_pong (pos 7))
unfolding handle_control text_beq
ping_answered = refl

abbrev cancelled : Error
cancelled = codes "context canceled"

abbrev turn : Turn
turn = record {
  cancelled = none;
  incoming = ok (record { binary = false; payload = [] });
  write_error = none;
  now = now;
  cancelled_at_send = none;
}

abbrev last_turn : Turn
last_turn = record turn { cancelled = some cancelled }

abbrev attempt : List Turn → Option Error → Attempt
attempt turns after = record {
  clock = now;
  reply = failed (codes "no request");
  dial_error = λ url. none;
  link = record { write_error = λ i. none; clock = λ i. now };
  turns = turns;
  cancelled = after;
}

-- A read that fails, and then an attempt that is cancelled.
abbrev pub attempts : List Attempt
attempts =
    attempt (turn ∷ record turn { incoming = failed (codes "EOF") } ∷ []) none
    ∷ attempt (turn ∷ last_turn ∷ []) (some cancelled)
    ∷ []

start-books_example : All (IsRead codec bybit) (start codec bybit (symbol ∷ []) attempts).books
start-books_example = start-books codec bybit (symbol ∷ []) attempts

pub sent : (start codec bybit (symbol ∷ []) attempts).books ≡ read ∷ read ∷ []
unfolding start endpoint text_beq subscribe handle_control parse_snapshot slash_symbol trim_levels
    parse_string_levels fixed_float
sent = refl

start-Retries_example :
    Retries codec bybit (symbol ∷ []) attempts (start codec bybit (symbol ∷ []) attempts)
start-Retries_example = start-Retries codec bybit (symbol ∷ []) attempts

stopped : (start codec bybit (symbol ∷ []) attempts).ending ≡ returned (some cancelled)
unfolding start endpoint text_beq subscribe handle_control parse_snapshot
stopped = refl

abbrev first : Attempt
first = attempt (turn ∷ []) none

turn-Reads : Reads codec bybit turn []
unfolding payload_of text_beq
turn-Reads = record {
  live = refl;
  message = record { binary = false; payload = [] };
  read = refl;
  unpacked = refl;
  written = refl;
  sent = refl;
}

connected : endpoint bybit now first.reply ≡ ok (codes "wss://stream.bybit.com/v5/public/spot")
unfolding endpoint text_beq
connected = refl

subscribed : (subscribe bybit first.link (symbol ∷ [])).error ≡ none
unfolding subscribe text_beq
subscribed = refl

run-Delivers_example :
    run codec bybit (symbol ∷ []) first
    ≡ expected codec bybit (subscribe bybit first.link (symbol ∷ [])).frames ((now, []) ∷ [])
run-Delivers_example =
    run-Delivers codec bybit (symbol ∷ []) first (codes "wss://stream.bybit.com/v5/public/spot")
      ((now, []) ∷ []) connected refl subscribed (one turn-Reads nothing)

capital_letter : (c : ℕ) → 65 ≤ c → c ≤ 90 → IsBase c
capital_letter c h k = record {
  plain = record {
    capital = ground arith;
    not_slash = λ e. omega (arith, e);
    not_dash = λ e. omega (arith, e);
  };
  not_dot = λ e. omega (arith, e);
}

base-IsBase : All IsBase base
base-IsBase = (
  capital_letter 66 (omega arith) (omega arith),
  (
    capital_letter 84 (omega arith) (omega arith),
    (capital_letter 67 (omega arith) (omega arith), tt),
  ),
)

answered : IsAnswer decoder (base ++ codes "/USDT") [] bybit
unfolding bybit_topic bybit_symbol
answered = bybit_answer message.body refl

IsAnswer-Gives_example : Gives decoder bybit now [] (base ++ codes "/USDT")
IsAnswer-Gives_example = IsAnswer-Gives decoder base bybit now [] base_filled base-IsBase answered
