-- ===== src/App/Runtime/Channel.antt =====
-- `Run`: the connectors, the scanner and the writer around the channel `updates`, in any interleaving.
use arb_bot.Prelude.{
  ℕ, ◌<◌, ◌≡◌, refl, Bool, true, false, List, [], ◌∷◌, ◌++◌, some, length, subst, All, All-append,
  append-All,
}
use arb_bot.Float.{Float64}
use arb_bot.Exchange.{OrderBookSnapshot}
use arb_bot.Storage
use arb_bot.Storage.{Event, dequeue}
use arb_bot.App.Config.{Config}
use arb_bot.App.Scanner.{Scanner, Moment}
use arb_bot.App.Runtime.{new_runtime, handle_update}
use arb_bot.App.Runtime.Trace.{Trace, began, took, wrote}

-- The capacity of `updates`.
abbrev pub updates_capacity : ℕ
updates_capacity = 1024

-- The state of the scanner, the updates that wait for it, the oldest first, and what the end of the
-- context has brought about.
pub record System (W : Type 0) : Type 0 where
  pub scanner : Scanner W
  pub updates : List (OrderBookSnapshot W)
  pub context_done : Bool
  pub scanner_returned : Bool
  pub writer_returned : Bool

-- The channel when `Run` has made it.
abbrev pub system : {W : Type 0} → Scanner W → System W
system s = record {
  scanner = s;
  updates = [];
  context_done = false;
  scanner_returned = false;
  writer_returned = false;
}

module _ {W : Type 0} ⦃f : Float64 W⦄ where
  -- A run, with the updates that the connectors have sent, the oldest first, and those that the
  -- scanner has handled, the latest first. A channel of Go keeps the order, and a connector waits while
  -- it is full. When the context is done, the scanner and the writer may still take what is there until
  -- their `select` takes that case.
  pub data Run (cfg : Config W)
      : List (OrderBookSnapshot W) → List (Moment × OrderBookSnapshot W) → System W → Type 0 where
    launched : {s : Scanner W} → s ≡ new_runtime cfg → Run cfg [] [] (system s)
    sends :
        {sent : List (OrderBookSnapshot W)} {seen : List (Moment × OrderBookSnapshot W)}
        {y : System W} (b : OrderBookSnapshot W)
        → Run cfg sent seen y
        → length y.updates < updates_capacity
        → Run cfg (sent ++ b ∷ []) seen (record y { updates = y.updates ++ b ∷ [] })
    handles :
        {sent rest : List (OrderBookSnapshot W)} {seen : List (Moment × OrderBookSnapshot W)}
        {y : System W} {t : Scanner W} (m : Moment) (b : OrderBookSnapshot W)
        → Run cfg sent seen y
        → y.scanner_returned ≡ false
        → y.updates ≡ b ∷ rest
        → handle_update y.scanner m b ≡ some t
        → Run cfg sent ((m, b) ∷ seen) (record y { scanner = t; updates = rest })
    writes :
        {sent : List (OrderBookSnapshot W)} {seen : List (Moment × OrderBookSnapshot W)}
        {y : System W} (event : Event W) (rest : Storage.Store W)
        → Run cfg sent seen y
        → y.writer_returned ≡ false
        → dequeue y.scanner.storage ≡ some (event, rest)
        → Run cfg sent seen (record y { scanner = record y.scanner { storage = rest } })
    context_ends :
        {sent : List (OrderBookSnapshot W)} {seen : List (Moment × OrderBookSnapshot W)}
        {y : System W}
        → Run cfg sent seen y
        → Run cfg sent seen (record y { context_done = true })
    scanner_returns :
        {sent : List (OrderBookSnapshot W)} {seen : List (Moment × OrderBookSnapshot W)}
        {y : System W}
        → Run cfg sent seen y
        → y.context_done ≡ true
        → Run cfg sent seen (record y { scanner_returned = true })
    writer_returns :
        {sent : List (OrderBookSnapshot W)} {seen : List (Moment × OrderBookSnapshot W)}
        {y : System W}
        → Run cfg sent seen y
        → y.context_done ≡ true
        → Run cfg sent seen (record y { writer_returned = true })

  -- The run of the scanner alone.
  pub Run-Trace :
      (cfg : Config W) (sent : List (OrderBookSnapshot W))
      (seen : List (Moment × OrderBookSnapshot W)) (y : System W)
      → Run cfg sent seen y
      → Trace cfg seen y.scanner
  Run-Trace cfg sent seen y (launched e) = began e
  Run-Trace cfg sent seen y (sends b run room) = Run-Trace cfg _ _ _ run
  Run-Trace cfg sent seen y (handles m b run live first done) =
      took m b (Run-Trace cfg _ _ _ run) done
  Run-Trace cfg sent seen y (writes event rest run live e) =
      wrote event rest (Run-Trace cfg _ _ _ run) e refl
  Run-Trace cfg sent seen y (context_ends run) = Run-Trace cfg _ _ _ run
  Run-Trace cfg sent seen y (scanner_returns run e) = Run-Trace cfg _ _ _ run
  Run-Trace cfg sent seen y (writer_returns run e) = Run-Trace cfg _ _ _ run

  -- What holds of all that is sent holds of what is handled and of what waits.
  pub Run-All :
      (P : OrderBookSnapshot W → Type 0) (cfg : Config W) (sent : List (OrderBookSnapshot W))
      (seen : List (Moment × OrderBookSnapshot W)) (y : System W)
      → Run cfg sent seen y
      → All P sent
      → All (λ u. P u.1) seen × All P y.updates
  Run-All P cfg sent seen y (launched e) h = (tt, tt)
  Run-All P cfg sent seen y (sends {sent = before} {y = x} b run room) h =
      let (old, new) = append-All P before (b ∷ []) h in
      let (handled, waiting) = Run-All P cfg before seen x run old in
      (handled, All-append P x.updates (b ∷ []) waiting new)
  Run-All P cfg sent seen y (handles {rest} {seen = earlier} {y = x} m b run live first done) h =
      let (handled, waiting) = Run-All P cfg sent earlier x run h in
      let next : All P (b ∷ rest) = subst (All P) first waiting in ((next.0, handled), next.1)
  Run-All P cfg sent seen y (writes {y = x} event rest run live e) h =
      Run-All P cfg sent seen x run h
  Run-All P cfg sent seen y (context_ends {y = x} run) h = Run-All P cfg sent seen x run h
  Run-All P cfg sent seen y (scanner_returns {y = x} run e) h = Run-All P cfg sent seen x run h
  Run-All P cfg sent seen y (writer_returns {y = x} run e) h = Run-All P cfg sent seen x run h
