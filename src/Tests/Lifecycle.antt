-- ===== src/Tests/Lifecycle.antt =====
-- Examples of the loop of the scanner, and of the runtime and the process that end.
use arb_bot.App.Runtime.Lifecycle
use mathlib.Core.List.{Memᴰ}
use arb_bot.Prelude.{
  text_beq, lookup, ◌+◌, ◌≤◌, ◌≡◌, ◌≢◌, ◌↔◌, refl, List, [], ◌∷◌, ◌++◌, Option, none, some, Text,
  codes, length, All, true,
}
use arb_bot.Float.Fixed.{Fixed, fixed_float}
use arb_bot.Exchange.{Error, bybit, okx, htx, kucoin}
use arb_bot.App.Config.{default_config, Config}
use arb_bot.App.Runtime.{is_enabled, build_connectors, new_runtime}
use arb_bot.App.Runtime.Loop.{Turn, done, arrived, event_taken, Runs, run_scanner-Runs}
use arb_bot.App.Runtime.Lifecycle.{
  cancels, same, Goroutine, writer, connector, scanner, server, serving, Process, Event, signalled,
  ended, goroutines, launch, step, History, launched, next,
}
use arb_bot.App.Runtime.Lifecycle.Causes.{Stops, Ended}
use arb_bot.App.Runtime.Lifecycle.Ends.{Agrees}
use arb_bot.Command.{exit_code, exit_code_lem}
use arb_bot.Tests.Data.{long_book, short_book}
use arb_bot.Tests.Runtime.{cfg, moment}

abbrev turns : List (Turn Fixed)
turns = arrived moment long_book ∷ event_taken ∷ arrived moment short_book ∷ done ∷ []

run_scanner-Runs_example : Runs cfg [] (new_runtime cfg) turns
run_scanner-Runs_example = run_scanner-Runs cfg turns

abbrev loaded : Config Fixed × Option Text
loaded = (cfg, none)

abbrev in_use : Option Error
in_use = some (codes "listen tcp :8080: bind: address already in use")

-- The admin server has failed.
abbrev failing : Process
failing = record {
  running =
      writer ∷ connector bybit ∷ connector okx ∷ connector htx ∷ connector kucoin ∷ scanner ∷ [];
  context_done = true;
  stage = serving;
}

failed_run : History cfg (ended server in_use ∷ []) failing
unfolding launch goroutines step Lifecycle.done same build_connectors is_enabled lookup
    default_config text_beq cancels
failed_run = next (ended server in_use) (launched refl) refl

exit_code_lem_example :
    ((exit_code loaded failing ≡ some 1) ↔ (loaded.1 ≢ none))
    × (exit_code loaded failing ≡ some 0
        → Stops (ended server in_use ∷ [])
          × ((g : Goroutine) → Memᴰ g (goroutines cfg) → Ended g (ended server in_use ∷ [])))
    × (exit_code loaded failing ≡ none
        → Stops (ended server in_use ∷ [])
        → (more : List Event) × (last : Process) × History cfg
            (more ++ ended server in_use ∷ [])
            last
          × (length more ≤ length failing.running + 2)
          × All (Agrees (λ g. none)) more
          × (exit_code loaded last ≡ some 0))
exit_code_lem_example =
    exit_code_lem loaded (λ g. none) (ended server in_use ∷ []) failing failed_run
