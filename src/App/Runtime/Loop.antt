-- ===== src/App/Runtime/Loop.antt =====
-- internal/app/runtime.go: the loop of `runScanner`, over what it finds until its context is done.
use mathlib.Core.List.{Memᴰ}
use mathlib.Core.List.Memᴰ.{head, tail}
use arb_bot.Prelude.{
  ◌≡◌, ◌≢◌, ◌↔◌, arith, refl, sym, ap, ◌∙◌, true, false, Bool, List, [], ◌∷◌, Option, Option-cases,
  none, some, inl, inr,
}
use arb_bot.Float.{Float64}
use arb_bot.Exchange.{OrderBookSnapshot}
use arb_bot.Storage.{dequeue}
use arb_bot.App.Config.{Config}
use arb_bot.App.Scanner.{Scanner, Moment}
use arb_bot.App.Runtime.{new_runtime, handle_update}
use arb_bot.App.Runtime.Invariant.{Reachable-IsSafe, handle_update-IsSafe}
use arb_bot.App.Runtime.Trace.{Trace, began, took, wrote, Trace-Reachable}

-- What one turn of the loop finds: a context that is done, or an update. Between two turns the writer
-- may take an event from the queue.
pub data Turn (W : Type 0) : Type 0 where
  done : Turn W
  arrived : Moment → OrderBookSnapshot W → Turn W
  event_taken : Turn W

pub record Loop (W : Type 0) : Type 0 where
  pub scanner : Scanner W
  pub returned : Bool

module _ {W : Type 0} ⦃f : Float64 W⦄ where
  -- The writer takes the oldest event, if there is one.
  take_event : Scanner W → Scanner W
  take_event s = elim (dequeue s.storage) [
    | none ↦ s
    | some (event, rest) ↦ record s { storage = rest }
  ]

  -- `none` is a panic.
  unfoldable pub run_scanner : Scanner W → List (Turn W) → Option (Loop W)
  unfolding take_event
  run_scanner s [] = some (record { scanner = s; returned = false })
  run_scanner s (done ∷ turns) = some (record { scanner = s; returned = true })
  run_scanner s (arrived m update ∷ turns) = elim (handle_update s m update) [
    | none ↦ none
    | some t ↦ run_scanner t turns
  ]
  run_scanner s (event_taken ∷ turns) = run_scanner (take_event s) turns

  -- The updates that are handled before the context is done, the latest first, after those in `seen`.
  pub until_done :
      List (Moment × OrderBookSnapshot W) → List (Turn W) → List (Moment × OrderBookSnapshot W)
  until_done seen [] = seen
  until_done seen (done ∷ turns) = seen
  until_done seen (arrived m update ∷ turns) = until_done ((m, update) ∷ seen) turns
  until_done seen (event_taken ∷ turns) = until_done seen turns

  -- A run of the loop without a panic, from a state that has handled `seen`.
  pub record Runs (cfg : Config W) (seen : List (Moment × OrderBookSnapshot W)) (s : Scanner W)
      (turns : List (Turn W)) : Type 0 where
    pub left : Loop W
    pub runs : run_scanner s turns ≡ some left
    pub trace : Trace cfg (until_done seen turns) left.scanner
    pub returns : (left.returned ≡ true) ↔ Memᴰ done turns

  later :
      (turns : List (Turn W)) (turn : Turn W) {B : Type 0}
      → turn ≢ done
      → (B ↔ Memᴰ done turns)
      → (B ↔ Memᴰ done (turn ∷ turns))
  later turns turn other h =
      (λ x. tail (h.0 x), λ k. elim k [ head same ↦ absurd (other (sym same)) | tail k' ↦ h.1 k' ])

  take_event-Trace :
      (cfg : Config W) (seen : List (Moment × OrderBookSnapshot W)) (s : Scanner W)
      → Trace cfg seen s
      → Trace cfg seen (take_event s)
  unfolding take_event
  take_event-Trace cfg seen s run = elim (Option-cases (dequeue s.storage)) [
    | inl e ↦ rw (e, take_event) run
    | inr ((event, rest), e) ↦ rw (e, take_event) (wrote event rest run e refl)
  ]

  run_scanner-arrived :
      (s t : Scanner W) (m : Moment) (update : OrderBookSnapshot W) (turns : List (Turn W))
      → handle_update s m update ≡ some t
      → run_scanner s (arrived m update ∷ turns) ≡ run_scanner t turns
  unfolding run_scanner
  run_scanner-arrived s t m update turns e =
      ap (λ o. elim o [ none ↦ none | some u ↦ run_scanner u turns ]) e

  Runs-from :
      (cfg : Config W) (seen : List (Moment × OrderBookSnapshot W)) (s : Scanner W)
      (turns : List (Turn W))
      → Trace cfg seen s
      → Runs cfg seen s turns
  unfolding run_scanner until_done
  Runs-from cfg seen s [] run = record {
    left = record { scanner = s; returned = false };
    runs = refl;
    trace = run;
    returns = ((λ e. absurd cc), λ k. elim k [ ]);
  }
  Runs-from cfg seen s (done ∷ turns) run = record {
    left = record { scanner = s; returned = true };
    runs = refl;
    trace = run;
    returns = ((λ e. head refl), λ k. refl);
  }
  Runs-from cfg seen s (arrived m update ∷ turns) run =
      let safe = Reachable-IsSafe cfg s (Trace-Reachable cfg seen s run) in
      let (t, e, _) = handle_update-IsSafe cfg s m update safe in
      let rest = Runs-from cfg ((m, update) ∷ seen) t turns (took m update run e) in
      record {
        left = rest.left;
        runs = run_scanner-arrived s t m update turns e ∙ rest.runs;
        trace = rest.trace;
        returns = later turns (arrived m update) (λ same. ground (arith, same)) rest.returns;
      }
  Runs-from cfg seen s (event_taken ∷ turns) run =
      let rest = Runs-from cfg seen (take_event s) turns (take_event-Trace cfg seen s run) in
      record {
        left = rest.left;
        runs = rest.runs;
        trace = rest.trace;
        returns = later turns event_taken (λ same. ground (arith, same)) rest.returns;
      }

  -- Whatever updates arrive and whenever the writer takes events, the loop of the scanner never panics; it
  -- returns exactly when it finds its context done; and the state that it leaves is that of a run that
  -- has handled, in their order, the updates that came before.
  pub run_scanner-Runs :
      (cfg : Config W) (turns : List (Turn W)) → Runs cfg [] (new_runtime cfg) turns
  run_scanner-Runs cfg turns = Runs-from cfg [] (new_runtime cfg) turns (began refl)
