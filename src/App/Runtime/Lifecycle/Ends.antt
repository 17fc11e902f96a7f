-- ===== src/App/Runtime/Lifecycle/Ends.antt =====
-- What lets `Run` return.
use mathlib.Core.List.{append_assoc}
use arb_bot.Prelude.{
  ℕ, ◌+◌, ◌≤◌, suc, ◌≡◌, ◌≢◌, refl, sym, subst, arith, Bool, true, List, [], ◌∷◌, ◌++◌, Option,
  ◌||◌, text_eq, length, length-append, All, All-append,
}
use arb_bot.Float.{Float64}
use arb_bot.Exchange.{Error}
use arb_bot.App.Config.{Config}
use arb_bot.App.Runtime.Lifecycle.{
  Goroutine, Stage, serving, stopping, returned, Process, Event, signalled, ended, shut_down,
  joined, cancels, step, History, next,
}
use arb_bot.App.Runtime.Lifecycle.Causes.{done-first, Stops}
use arb_bot.App.Runtime.Lifecycle.States.{History-Lives}

-- A goroutine returns with the given error.
pub Agrees : (Goroutine → Option Error) → Event → Type 0
Agrees outcome (ended g err) = err ≡ outcome g
Agrees outcome signalled = Unit
Agrees outcome shut_down = Unit
Agrees outcome joined = Unit

module _ {W : Type 0} ⦃f : Float64 W⦄ (cfg : Config W) where
  -- `Run` returns after at most this many more events.
  pub record Finishes (outcome : Goroutine → Option Error) (es : List Event) (most : ℕ)
      : Type 0 where
    pub more : List Event
    pub last : Process
    pub history : History cfg (more ++ es) last
    pub few : length more ≤ most
    pub as_given : All (Agrees outcome) more
    pub over : last.stage ≡ returned

  Finishes-after :
      (outcome : Goroutine → Option Error) (e : Event) (es : List Event) (most : ℕ)
      → Agrees outcome e
      → Finishes outcome (e ∷ es) most
      → Finishes outcome es (suc most)
  Finishes-after outcome e es most agrees h = record {
    more = h.more ++ e ∷ [];
    last = h.last;
    history = subst (λ l. History cfg l h.last) (sym (append_assoc h.more (e ∷ []) es)) h.history;
    few = omega (arith, h.few, length-append h.more (e ∷ []));
    as_given = All-append (Agrees outcome) h.more (e ∷ []) h.as_given (agrees, tt);
    over = h.over;
  }

  -- Every goroutine returns, with any error, and then `Run` does.
  stopping-Finishes :
      (outcome : Goroutine → Option Error) (gs : List Goroutine) (es : List Event) (c : Bool)
      → History cfg es (record { running = gs; context_done = c; stage = stopping })
      → Finishes outcome es (suc (length gs))
  unfolding step Agrees
  stopping-Finishes outcome [] es c run = record {
    more = joined ∷ [];
    last = record { running = []; context_done = c; stage = returned };
    history = next joined run refl;
    few = omega arith;
    as_given = (tt, tt);
    over = refl;
  }
  stopping-Finishes outcome (g ∷ gs) es c run =
      Finishes-after outcome (ended g (outcome g)) es (suc (length gs)) refl (
        stopping-Finishes outcome gs (ended g (outcome g) ∷ es) (c || cancels g (outcome g))
          (next (ended g (outcome g)) run (rw (done-first g gs, step) refl)))

  serving-Finishes :
      (outcome : Goroutine → Option Error) (gs : List Goroutine) (es : List Event) (c : Bool)
      → History cfg es (record { running = gs; context_done = c; stage = serving })
      → c ≡ true
      → Finishes outcome es (length gs + 2)
  unfolding step Agrees
  serving-Finishes outcome gs es c run cancelled = subst (Finishes outcome es) (ground arith) (
      Finishes-after outcome shut_down es (suc (length gs)) tt
        (stopping-Finishes outcome gs (shut_down ∷ es) c (next shut_down run (rw cancelled refl))))

  Finishes-from :
      (outcome : Goroutine → Option Error) (gs : List Goroutine) (es : List Event) (c : Bool)
      (st : Stage)
      → History cfg es (record { running = gs; context_done = c; stage = st })
      → c ≡ true
      → st ≢ returned
      → Finishes outcome es (length gs + 2)
  Finishes-from outcome gs es c serving run cancelled late =
      serving-Finishes outcome gs es c run cancelled
  Finishes-from outcome gs es c stopping run cancelled late =
      let h = stopping-Finishes outcome gs es c run in
      record {
        more = h.more;
        last = h.last;
        history = h.history;
        few = omega (arith, h.few);
        as_given = h.as_given;
        over = h.over;
      }
  Finishes-from outcome gs es c returned run cancelled late = absurd (late refl)

  -- After a signal or a failure of the admin server, when every goroutine that runs returns, with any
  -- error, `Run` returns after at most two more events.
  pub History-Finishes :
      (outcome : Goroutine → Option Error) (es : List Event) (p : Process)
      → History cfg es p
      → Stops es
      → p.stage ≢ returned
      → Finishes outcome es (length p.running + 2)
  History-Finishes outcome es p run stops late =
      Finishes-from outcome p.running es p.context_done p.stage run
        ((History-Lives cfg es p run).effect stops) late
