-- ===== src/Command.antt =====
-- cmd/arb-bot/main.go: `main`, from the loaded configuration to the exit of the process.
use mathlib.Core.List.{Memᴰ}
use arb_bot.Prelude.{
  ℕ, ◌+◌, ◌≤◌, ◌≡◌, ◌≢◌, ◌↔◌, refl, arith, List, ◌++◌, Option, none, some, Text, length, All,
}
use arb_bot.Float.{Float64}
use arb_bot.Exchange.{Error}
use arb_bot.App.Config.{Config}
use arb_bot.App.Runtime.Lifecycle.{
  Goroutine, Stage, serving, stopping, returned, Process, Event, goroutines, History,
}
use arb_bot.App.Runtime.Lifecycle.Causes.{Stops, Ended}
use arb_bot.App.Runtime.Lifecycle.States.{History-returned}
use arb_bot.App.Runtime.Lifecycle.Ends.{Agrees, History-Finishes}

-- The errors of `NewRuntime` and of `Run`: both return `nil` on every path.
new_runtime_error : Option Error
new_runtime_error = none

run_error : Option Error
run_error = none

exit_of : Option Error → ℕ
exit_of none = 0
exit_of (some err) = 1

code_of : Stage → Option ℕ
unfolding exit_of run_error
code_of serving = none
code_of stopping = none
code_of returned = some (exit_of run_error)

-- `main` once the configuration is loaded.
started : Stage → Option ℕ
unfolding code_of new_runtime_error
started st = elim new_runtime_error [ some err ↦ some 1 | none ↦ code_of st ]

module _ {W : Type 0} where
  -- The exit code, given what `LoadConfig` returned and the state of `Run`; `none` while it runs.
  -- A configuration that does not load starts nothing.
  unfoldable pub exit_code : Config W × Option Text → Process → Option ℕ
  unfolding started
  exit_code (cfg, some err) p = some 1
  exit_code (cfg, none) p = started p.stage

code_of-returned : (st : Stage) → code_of st ≡ some 0 → st ≡ returned
unfolding code_of
code_of-returned serving e = absurd cc
code_of-returned stopping e = absurd cc
code_of-returned returned e = refl

code_of-failed : (st : Stage) → code_of st ≢ some 1
unfolding code_of
code_of-failed serving e = absurd cc
code_of-failed stopping e = absurd cc
code_of-failed returned e = ground (arith, e)

code_of-running : (st : Stage) → code_of st ≡ none → st ≢ returned
unfolding code_of
code_of-running serving e over = absurd cc
code_of-running stopping e over = absurd cc
code_of-running returned e over = absurd cc

module _ {W : Type 0} ⦃f : Float64 W⦄ where
  -- For every course of the runtime: the process exits with 1 exactly when the configuration did not
  -- load; it exits with 0 only after a signal or a failure of the admin server, and only when every goroutine
  -- has returned; and while it runs, after a signal or such a failure, it can reach the exit with 0 in at most
  -- two events more than there are goroutines left, with any error that each may return.
  pub exit_code_lem :
      (loaded : Config W × Option Text) (outcome : Goroutine → Option Error) (es : List Event)
      (p : Process)
      → History loaded.0 es p
      → ((exit_code loaded p ≡ some 1) ↔ (loaded.1 ≢ none))
        × (exit_code loaded p ≡ some 0
            → Stops es × ((g : Goroutine) → Memᴰ g (goroutines loaded.0) → Ended g es))
        × (exit_code loaded p ≡ none
            → Stops es
            → (more : List Event) × (last : Process) × History loaded.0 (more ++ es) last
              × (length more ≤ length p.running + 2)
              × All (Agrees outcome) more
              × (exit_code loaded last ≡ some 0))
  unfolding exit_code started code_of
  exit_code_lem (cfg, some err) outcome es p run =
      (((λ e. λ k. ground (arith, k)), λ k. refl), λ e. ground (arith, e), λ e stops. absurd cc)
  exit_code_lem (cfg, none) outcome es p run = (
    ((λ e. absurd (code_of-failed p.stage e)), λ k. absurd (k refl)),
    λ e. History-returned cfg es p run (code_of-returned p.stage e),
    λ e stops.
        let h = History-Finishes cfg outcome es p run stops (code_of-running p.stage e) in
        (h.more, h.last, h.history, h.few, h.as_given, rw h.over refl),
  )
