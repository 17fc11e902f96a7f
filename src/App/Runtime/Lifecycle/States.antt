-- ===== src/App/Runtime/Lifecycle/States.antt =====
-- What holds in every state of `Run`, and what has happened when it returns.
use mathlib.Core.List.{Memᴰ}
use mathlib.Core.List.Memᴰ.{head, tail}
use mathlib.Core.Option.{some-injective}
use arb_bot.Prelude.{
  ◌≡◌, ◌≢◌, ◌⊎◌, refl, sym, ap, subst, arith, Bool, true, false, List, [], ◌∷◌, Option,
  Option-cases, Bool-cases, some, inl, inr, ◌||◌, text_eq,
}
use arb_bot.Float.{Float64}
use arb_bot.Exchange.{Error}
use arb_bot.App.Config.{Config}
use arb_bot.App.Runtime.Lifecycle.{
  Goroutine, Stage, serving, stopping, returned, Process, Event, signalled, ended, shut_down,
  joined, done, cancels, step, goroutines, launch, History, launched, next,
}
use arb_bot.App.Runtime.Lifecycle.Causes.{
  done-others, Ended, Stops, Stops-later, Stops-before, cancels-Stops,
}

module _ {W : Type 0} ⦃f : Float64 W⦄ (cfg : Config W) where
  -- What holds in every state.
  pub record Lives (es : List Event) (p : Process) : Type 0 where
    pub all_joined : p.stage ≡ returned → p.running ≡ []
    pub counted : (g : Goroutine) → Memᴰ g (goroutines cfg) → Memᴰ g p.running ⊎ Ended g es
    pub cause : p.context_done ≡ true → Stops es
    pub effect : Stops es → p.context_done ≡ true
    pub woken : p.stage ≢ serving → p.context_done ≡ true

  Ended-later : (g : Goroutine) (e : Event) (es : List Event) → Ended g es → Ended g (e ∷ es)
  Ended-later g e es (err, m) = (err, tail m)

  counted-later :
      (g : Goroutine) (gs : List Goroutine) (e : Event) (es : List Event)
      → Memᴰ g gs ⊎ Ended g es
      → Memᴰ g gs ⊎ Ended g (e ∷ es)
  counted-later g gs e es (inl m) = inl m
  counted-later g gs e es (inr x) = inr (Ended-later g e es x)

  launch-Lives : Lives [] (launch cfg)
  unfolding launch
  launch-Lives = record {
    all_joined = λ e. absurd cc;
    counted = λ g m. inl m;
    cause = λ e. absurd cc;
    effect = λ s. elim s [ inl m ↦ elim m [ ] | inr (err, m, fails) ↦ elim m [ ] ];
    woken = λ late. absurd (late refl);
  }

  signalled-Lives :
      (es : List Event) (p : Process)
      → Lives es p
      → Lives (signalled ∷ es) (record p { context_done = true })
  signalled-Lives es p h = record {
    all_joined = h.all_joined;
    counted = λ g m. counted-later g p.running signalled es (h.counted g m);
    cause = λ e. inl (head refl);
    effect = λ s. refl;
    woken = λ late. refl;
  }

  ended-Lives :
      (es : List Event) (p : Process) (g : Goroutine) (err : Option Error) (rest : List Goroutine)
      → done g p.running ≡ some rest
      → Lives es p
      → Lives
          (ended g err ∷ es)
          (record p { running = rest; context_done = p.context_done || cancels g err })
  unfolding done
  ended-Lives es p g err rest found h = record {
    all_joined = λ e. absurd (ground (arith, found, ap (done g) (h.all_joined e)));
    counted = λ k m. elim (h.counted k m) [
      | inr x ↦ inr (Ended-later k (ended g err) es x)
      | inl listed ↦ elim (done-others g k p.running rest found listed) [
        | inl at ↦ inr (err, head (ap (λ x. ended x err) at))
        | inr still ↦ inl still
      ]
    ];
    cause = λ e. elim (Bool-cases (cancels g err)) [
      | inl stops ↦ cancels-Stops g err es stops
      | inr goes_on ↦ Stops-later (ended g err) es (h.cause (ground (arith, e, goes_on)))
    ];
    effect = λ s. elim (Bool-cases (cancels g err)) [
      | inl stops ↦ ground (arith, stops)
      | inr goes_on ↦ ground (
        arith,
        h.effect (
            Stops-before (ended g err) es (λ at. absurd cc)
              (λ k err' at. subst (λ e. cancels_of e ≡ false) (sym at) goes_on) s),
      )
    ];
    woken = λ late. ground (arith, h.woken late);
  }
    where
      cancels_of : Event → Bool
      cancels_of (ended k err') = cancels k err'
      cancels_of signalled = false
      cancels_of shut_down = false
      cancels_of joined = false

  shut_down-Lives :
      (es : List Event) (p : Process)
      → p.context_done ≡ true
      → Lives es p
      → Lives (shut_down ∷ es) (record p { stage = stopping })
  shut_down-Lives es p cancelled h = record {
    all_joined = λ e. absurd cc;
    counted = λ g m. counted-later g p.running shut_down es (h.counted g m);
    cause = λ e. Stops-later shut_down es (h.cause e);
    effect = λ s. cancelled;
    woken = λ late. cancelled;
  }

  joined-Lives :
      (es : List Event) (p : Process)
      → p.stage ≡ stopping
      → p.running ≡ []
      → Lives es p
      → Lives (joined ∷ es) (record p { stage = returned })
  joined-Lives es p late none_left h = record {
    all_joined = λ e. none_left;
    counted = λ g m. counted-later g p.running joined es (h.counted g m);
    cause = λ e. Stops-later joined es (h.cause e);
    effect = λ s.
        h.effect
          (Stops-before joined es (λ at. absurd cc) (λ k err at. absurd (ground (arith, at))) s);
    woken = λ _. h.woken (λ early. absurd (ground (arith, late, early)));
  }

  shut_down-step :
      (es : List Event) (gs : List Goroutine) (c : Bool) (st : Stage) (q : Process)
      → step (record { running = gs; context_done = c; stage = st }) shut_down ≡ some q
      → Lives es (record { running = gs; context_done = c; stage = st })
      → Lives (shut_down ∷ es) q
  unfolding step
  shut_down-step es gs c serving q same_q h = elim (Bool-cases c) [
    | inl cancelled ↦
        subst (Lives (shut_down ∷ es)) (ground (arith, same_q, cancelled))
          (shut_down-Lives es _ cancelled h)
    | inr live ↦ absurd (ground (arith, same_q, live))
  ]
  shut_down-step es gs c stopping q same_q h = absurd cc
  shut_down-step es gs c returned q same_q h = absurd cc

  joined-step :
      (es : List Event) (gs : List Goroutine) (c : Bool) (st : Stage) (q : Process)
      → step (record { running = gs; context_done = c; stage = st }) joined ≡ some q
      → Lives es (record { running = gs; context_done = c; stage = st })
      → Lives (joined ∷ es) q
  unfolding step
  joined-step es gs c serving q same_q h = absurd cc
  joined-step es [] c stopping q same_q h =
      subst (Lives (joined ∷ es)) (some-injective _ _ same_q) (joined-Lives es _ refl refl h)
  joined-step es (g ∷ gs) c stopping q same_q h = absurd cc
  joined-step es gs c returned q same_q h = absurd cc

  step-Lives :
      (es : List Event) (p q : Process) (e : Event)
      → step p e ≡ some q
      → Lives es p
      → Lives (e ∷ es) q
  unfolding step
  step-Lives es p q signalled same_q h =
      subst (Lives (signalled ∷ es)) (some-injective _ _ same_q) (signalled-Lives es p h)
  step-Lives es p q (ended g err) same_q h = elim (Option-cases (done g p.running)) [
    | inl missing ↦ absurd (ground (arith, same_q, missing))
    | inr (rest, found) ↦
        subst (Lives (ended g err ∷ es)) (some-injective _ _ (rw (found, step) at same_q))
          (ended-Lives es p g err rest found h)
  ]
  step-Lives es p q shut_down same_q h =
      shut_down-step es p.running p.context_done p.stage q same_q h
  step-Lives es p q joined same_q h = joined-step es p.running p.context_done p.stage q same_q h

  pub History-Lives : (es : List Event) (p : Process) → History cfg es p → Lives es p
  History-Lives es p (launched e) = subst (Lives []) (sym e) launch-Lives
  History-Lives es p (next {p = before} {es = earlier} e run same_q) =
      step-Lives earlier before p e same_q (History-Lives earlier before run)

  -- `Run` returns only after a signal or a failure of the admin server, and only when every goroutine
  -- that it started has returned.
  pub History-returned :
      (es : List Event) (p : Process)
      → History cfg es p
      → p.stage ≡ returned
      → Stops es × ((g : Goroutine) → Memᴰ g (goroutines cfg) → Ended g es)
  History-returned es p run over =
      let h = History-Lives es p run in
      (
        h.cause (h.woken (λ early. absurd (ground (arith, over, early)))),
        λ g listed. elim (h.counted g listed) [
          | inl still ↦ elim (subst (Memᴰ g) (h.all_joined over) still) [ ]
          | inr x ↦ x
        ],
      )
