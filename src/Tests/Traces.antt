-- ===== src/Tests/Traces.antt =====
-- Examples of runs of the runtime: what the stores hold, and what the API answers.
use mathlib.Core.List.Memᴰ.{head}
use arb_bot.Prelude.{pos, true, false, arith, ◌≡◌, refl, List, [], ◌∷◌, some, All, lookup, text_beq}
use arb_bot.Clock.{Time}
use arb_bot.Float.Fixed.{Fixed, fixed_float}
use arb_bot.Exchange.{bybit, OrderBookSnapshot}
use arb_bot.Exchange.Messages.Laws.{IsBookOf}
use arb_bot.MarketData
use arb_bot.App.Scanner.{Scanner, Moment}
use arb_bot.App.Runtime.{new_runtime, handle_update, started, stepped, handled, server_config}
use arb_bot.App.Runtime.Invariant.{IsSafe, Reachable-IsSafe, handle_update-IsSafe}
use arb_bot.App.Runtime.Trace.{Trace, began, took, latest, Holds, Trace-Reachable, Trace-Holds}
use arb_bot.App.Runtime.Books.{SentBy, Run-books}
use arb_bot.App.Runtime.Served.{IsServed, Trace-IsServed}
use arb_bot.App.Runtime.Channel.{System, system, Run, launched, sends, handles}
use arb_bot.App.Scanner.Unread.{Unread, with_unread, reset}
use arb_bot.App.Scanner.Refresh.Records.{IsRecorded}
use arb_bot.App.Runtime.Recorded.{Reachable-IsRecorded}
use arb_bot.App.Runtime.Unread.{Trace-with_unread}
use arb_bot.Tests.Data.{symbol, cents, short_book}
use arb_bot.Tests.Runtime.{cfg, moment}
use arb_bot.Tests.Exchange.{read}
use arb_bot.Tests.Sessions.{codec, attempts, sent}
use arb_bot.Tests.Stored.{reader}

abbrev first_step :
    (t : Scanner Fixed) × (handle_update (new_runtime cfg) moment read ≡ some t) × IsSafe cfg t
first_step =
    handle_update-IsSafe cfg (new_runtime cfg) moment read
      (Reachable-IsSafe cfg (new_runtime cfg) (started refl))

abbrev seen : List (Moment × OrderBookSnapshot Fixed)
seen = (moment, read) ∷ []

abbrev after : Scanner Fixed
after = first_step.0

first_run : Trace cfg seen after
first_run = took moment read (began refl) first_step.1

Trace-Holds_example : Holds cfg after symbol bybit (latest symbol bybit seen)
Trace-Holds_example = Trace-Holds cfg seen after symbol bybit first_run

sent-SentBy : All (SentBy codec) (read ∷ [])
sent-SentBy = (
  record { name = bybit; symbols = symbol ∷ []; attempts = attempts; listed = rw sent (head refl) },
  tt,
)

abbrev waiting : System Fixed
waiting = record (system (new_runtime cfg)) { updates = read ∷ [] }

one_sent : Run cfg (read ∷ []) [] waiting
one_sent = sends read (launched refl) (omega arith)

one_handled : Run cfg (read ∷ []) seen (system after)
one_handled = handles moment read one_sent refl refl first_step.1

held : lookup bybit (MarketData.snapshot after.books symbol) ≡ some read
unfolding latest text_beq
held = (Trace-Holds cfg seen after symbol bybit first_run).book_eq

Run-books_example : (read.symbol ≡ symbol) × ((now : Time) × IsBookOf bybit now read)
Run-books_example =
    Run-books codec cfg (read ∷ []) seen (system after) symbol bybit read one_handled sent-SentBy
      held

Trace-IsServed_example : IsServed reader cfg seen after
Trace-IsServed_example = Trace-IsServed reader cfg seen after first_run

abbrev unlimited : Unread Fixed
unlimited = record {
  trading_enabled = true;
  max_daily_volume_usd = cents 0;
  max_daily_loss_usd = cents 0;
  max_slippage_pct = cents 0;
  stop_after_consecutive_failures = pos 0;
  retry_count = pos 9;
  cancel_unfilled_after = pos 0;
  manual_intervention_on_partial_fill = false;
}

Trace-with_unread_example :
    Trace (with_unread unlimited cfg) seen (reset unlimited after)
    × (server_config (with_unread unlimited cfg) (reset unlimited after) ≡ server_config cfg after)
Trace-with_unread_example = Trace-with_unread unlimited cfg seen after first_run

abbrev second_step :
    (t : Scanner Fixed) × (handle_update after moment short_book ≡ some t) × IsSafe cfg t
second_step = handle_update-IsSafe cfg after moment short_book first_step.2

Reachable-IsRecorded_example : IsRecorded second_step.0
Reachable-IsRecorded_example =
    Reachable-IsRecorded cfg second_step.0
      (stepped (Trace-Reachable cfg seen after first_run) (handled moment short_book second_step.1))
