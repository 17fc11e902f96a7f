-- ===== src/App/Runtime/Lifecycle.antt =====
-- internal/app/runtime.go: `Run`, from the start of its goroutines to its return.
pub mod Causes
pub mod States
pub mod Ends
use arb_bot.Prelude.{
  Bool, true, false, List, [], ◌∷◌, ◌++◌, map, Option, none, some, ◌||◌, not, if◌then◌else◌, ◌==◌,
  text_eq, ◌≡◌, codes,
}
use arb_bot.Float.{Float64}
use arb_bot.Exchange.{Error, Name}
use arb_bot.App.Config.{Config}
use arb_bot.App.Runtime.{build_connectors}

-- The goroutines that `wg` counts.
pub data Goroutine : Type 0 where
  writer : Goroutine
  connector : Name → Goroutine
  scanner : Goroutine
  server : Goroutine

pub data Stage : Type 0 where
  serving : Stage
  stopping : Stage
  returned : Stage

-- The goroutines that have not returned, whether the context of `Run` is done, and how far `Run` is.
pub record Process : Type 0 where
  pub running : List Goroutine
  pub context_done : Bool
  pub stage : Stage

-- What a goroutine does until it returns is in the modules of its own code; here it may return at any
-- time.
-- A signal, a goroutine that returns with an error or without, `<-ctx.Done()` with `Shutdown`, and
-- `wg.Wait()`.
pub data Event : Type 0 where
  signalled : Event
  ended : Goroutine → Option Error → Event
  shut_down : Event
  joined : Event

-- `http.ErrServerClosed`
abbrev pub server_closed : Error
server_closed = codes "http: Server closed"

unfoldable pub same : Goroutine → Goroutine → Bool
same writer writer = true
same writer (connector b) = false
same writer scanner = false
same writer server = false
same (connector a) writer = false
same (connector a) (connector b) = a == b
same (connector a) scanner = false
same (connector a) server = false
same scanner writer = false
same scanner (connector b) = false
same scanner scanner = true
same scanner server = false
same server writer = false
same server (connector b) = false
same server scanner = false
same server server = true

-- `wg.Done()`
unfoldable pub done : Goroutine → List Goroutine → Option (List Goroutine)
done g [] = none
done g (h ∷ hs) =
    let others = done g hs in
    if same g h then some hs else elim others [ none ↦ none | some rest ↦ some (h ∷ rest) ]

-- Only a server that failed cancels the context; an error of a connector is logged.
unfoldable pub cancels : Goroutine → Option Error → Bool
cancels server (some err) = not (err == server_closed)
cancels server none = false
cancels writer err = false
cancels (connector name) err = false
cancels scanner err = false

-- What an event does; `none` when it cannot happen.
unfoldable pub step : Process → Event → Option Process
step p signalled = some (record p { context_done = true })
step p (ended g err) = elim (done g p.running) [
  | none ↦ none
  | some rest ↦ some (record p { running = rest; context_done = p.context_done || cancels g err })
]
step p shut_down = elim p.stage [
  | serving ↦ if p.context_done then some (record p { stage = stopping }) else none
  | stopping ↦ none
  | returned ↦ none
]
step p joined = elim p.stage [
  | serving ↦ none
  | returned ↦ none
  | stopping ↦ elim p.running [ [] ↦ some (record p { stage = returned }) | g ∷ gs ↦ none ]
]

module _ {W : Type 0} ⦃f : Float64 W⦄ where
  unfoldable pub goroutines : Config W → List Goroutine
  goroutines cfg = writer ∷ map (λ c. connector c.0) (build_connectors cfg) ++ scanner ∷ server ∷ []

  -- `Run` once it has started its goroutines.
  unfoldable pub launch : Config W → Process
  launch cfg = record { running = goroutines cfg; context_done = false; stage = serving }

  -- What can happen, the latest event first.
  pub data History (cfg : Config W) : List Event → Process → Type 0 where
    launched : {p : Process} → p ≡ launch cfg → History cfg [] p
    next :
        {p q : Process} {es : List Event} (e : Event)
        → History cfg es p
        → step p e ≡ some q
        → History cfg (e ∷ es) q
