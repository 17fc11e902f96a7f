-- ===== src/Exchange/Session/Retry.antt =====
-- When a connector stops, when it connects again, and what it has sent by then.
use mathlib.Core.List.{append-nil}
use arb_bot.Prelude.{
  ◌⊎◌, ◌≡◌, ◌≢◌, refl, sym, ap, ◌∙◌, subst, All, take, ◌++◌, some, true, List, [], ◌∷◌, Option,
  none, arith, Option-cases, inl, inr, Text,
}
use arb_bot.Float.{Float64}
use arb_bot.Exchange.{Fallible-cases, Name, Error, OrderBookSnapshot}
use arb_bot.Exchange.Subscribe.{Frame, subscribe, endpoint}
use arb_bot.Exchange.Session.{
  Turn, Attempt, Ending, waiting, returned, Session, Action, stop, answer, send, skip, Codec,
  is_some, ended, turn_action, after_action, read_loop, subscribed, run, after_run, start,
}

-- A call that has returned has returned an error.
IsFailure : Ending → Type 0
IsFailure waiting = Unit {0}
IsFailure (returned err) = is_some err ≡ true

IsFailure-none : (e : Ending) → IsFailure e → e ≢ returned none
unfolding IsFailure is_some
IsFailure-none waiting h e = absurd cc
IsFailure-none (returned err) h e = ground (arith, h, e)

module _ {W : Type 0} ⦃f : Float64 W⦄ (codec : Codec W) (name : Name) where
  after_action-IsFailure :
      (a : Action W) (rest : Session W)
      → IsFailure rest.ending
      → IsFailure (after_action codec name a rest).ending
  unfolding after_action ended IsFailure is_some
  after_action-IsFailure (stop e) rest h = refl
  after_action-IsFailure (answer frame) rest h = h
  after_action-IsFailure (send b) rest h = h
  after_action-IsFailure skip rest h = h

  read_loop-IsFailure : (turns : List Turn) → IsFailure (read_loop codec name turns).ending
  unfolding read_loop IsFailure
  read_loop-IsFailure [] = tt
  read_loop-IsFailure (turn ∷ turns) =
      after_action-IsFailure (turn_action codec name turn) _ (read_loop-IsFailure turns)

  run-IsFailure : (symbols : List Text) (a : Attempt) → IsFailure (run codec name symbols a).ending
  unfolding run subscribed ended IsFailure is_some
  run-IsFailure symbols a = elim (Fallible-cases (endpoint name a.clock a.reply)) [
    | inl (err, e) ↦ rw (e, run) refl
    | inr (url, e) ↦ elim (Option-cases (a.dial_error url)) [
      | inl d ↦ elim (Option-cases (subscribe name a.link symbols).error) [
        | inl w ↦ rw (e, run) (rw d (rw (w, subscribed) (read_loop-IsFailure a.turns)))
        | inr (err, w) ↦ rw (e, run) (rw d (rw (w, subscribed) refl))
      ]
      | inr (err, d) ↦ rw (e, run) (rw d refl)
    ]
  ]

  after_run-waiting :
      (session : Session W) (cancelled : Option Error) (rest : Session W)
      → session.ending ≡ waiting
      → after_run codec name session cancelled rest ≡ session
  unfolding after_run
  after_run-waiting session cancelled rest e =
      rw (e, after_run) (ap (λ x. record session { ending = x }) e)

  after_run-stops :
      (session : Session W) (c err : Error) (rest : Session W)
      → session.ending ≡ returned (some err)
      → after_run codec name session (some c) rest ≡ record session { ending = returned (some c) }
  unfolding after_run is_some
  after_run-stops session c err rest e = rw (e, after_run) refl

  after_run-again :
      (session : Session W) (err : Error) (rest : Session W)
      → session.ending ≡ returned (some err)
      → after_run codec name session none rest ≡ record rest {
        frames = session.frames ++ rest.frames;
        books = session.books ++ rest.books;
      }
  unfolding after_run is_some
  after_run-again session err rest e = rw (e, after_run) refl

  module _ (symbols : List Text) where
    -- What the calls of `run` in these attempts write, and what they send.
    pub written : List Attempt → List Frame
    written [] = []
    written (a ∷ attempts) = (run codec name symbols a).frames ++ written attempts

    pub sent : List Attempt → List (OrderBookSnapshot W)
    sent [] = []
    sent (a ∷ attempts) = (run codec name symbols a).books ++ sent attempts

    -- `run` returned an error, and the context was not done.
    abbrev pub Failed : Attempt → Type 0
    Failed a =
        ((err : Error) × ((run codec name symbols a).ending ≡ returned (some err)))
        × (a.cancelled ≡ none)

    -- How a connector ends on the attempts that no failure precedes.
    abbrev pub EndsOn : List Attempt → Ending → Type 0
    EndsOn [] e = e ≡ waiting
    EndsOn (a ∷ _) e =
        (((run codec name symbols a).ending ≡ waiting) × (e ≡ waiting))
        ⊎ ((c : Error) × (a.cancelled ≡ some c) × (e ≡ returned (some c)))

    pub record Retries (attempts : List Attempt) (s : Session W) : Type 0 where
      pub before : List Attempt
      pub rest : List Attempt
      pub split : attempts ≡ before ++ rest
      pub all_failed : All Failed before
      pub frames_eq : s.frames ≡ written (before ++ take 1 rest)
      pub books_eq : s.books ≡ sent (before ++ take 1 rest)
      pub ends : EndsOn rest s.ending

    last-Retries :
        (a : Attempt) (attempts : List Attempt) (ending : Ending)
        → EndsOn (a ∷ attempts) ending
        → Retries (a ∷ attempts) (record (run codec name symbols a) { ending = ending })
    unfolding written sent
    last-Retries a attempts ending h = record {
      before = [];
      rest = a ∷ attempts;
      split = refl;
      all_failed = tt;
      frames_eq = sym (append-nil (run codec name symbols a).frames);
      books_eq = sym (append-nil (run codec name symbols a).books);
      ends = h;
    }

    again-Retries :
        (a : Attempt) (attempts : List Attempt) (s : Session W)
        → Failed a
        → Retries attempts s
        → Retries (a ∷ attempts) (record s {
          frames = (run codec name symbols a).frames ++ s.frames;
          books = (run codec name symbols a).books ++ s.books;
        })
    unfolding written sent
    again-Retries a attempts s fails h = record {
      before = a ∷ h.before;
      rest = h.rest;
      split = ap (◌∷◌ a) h.split;
      all_failed = (fails, h.all_failed);
      frames_eq = ap (◌++◌ (run codec name symbols a).frames) h.frames_eq;
      books_eq = ap (◌++◌ (run codec name symbols a).books) h.books_eq;
      ends = h.ends;
    }

    -- Over the calls of `run` that the network and the context allow, `Start` makes a new attempt after
    -- each one that failed while the context was not done, whatever the failure was: of the request, the
    -- dialling, a write or a read. It stops after the first attempt that failed with the context done, with the error
    -- of the context, and is still running while an attempt runs or when all of them have failed with
    -- the context not done. By then it has written and sent all that these attempts did, in their
    -- order, and nothing of a later one.
    pub start-Retries :
        (attempts : List Attempt) → Retries attempts (start codec name symbols attempts)
    unfolding start written sent
    start-Retries [] = record {
      before = [];
      rest = [];
      split = refl;
      all_failed = tt;
      frames_eq = refl;
      books_eq = refl;
      ends = refl;
    }
    start-Retries (a ∷ attempts) =
        go (start-Retries attempts) (run codec name symbols a).ending refl
      where
        go :
            Retries attempts (start codec name symbols attempts)
            → (e : Ending) → (run codec name symbols a).ending ≡ e
            → Retries (a ∷ attempts) (start codec name symbols (a ∷ attempts))
        go h waiting e =
            subst (Retries (a ∷ attempts))
              (ap (λ x. record (run codec name symbols a) { ending = x }) (sym e)
                ∙ sym (after_run-waiting _ a.cancelled _ e))
              (last-Retries a attempts waiting (inl (e, refl)))
        go h (returned none) e = absurd (IsFailure-none _ (run-IsFailure symbols a) e)
        go h (returned (some err)) e = elim (Option-cases a.cancelled) [
          | inl live ↦
              subst (Retries (a ∷ attempts))
                (sym (
                  ap
                    (λ x.
                      after_run codec name (run codec name symbols a) x
                        (start codec name symbols attempts))
                    live
                  ∙ after_run-again _ err _ e))
                (again-Retries a attempts _ ((err, e), live) h)
          | inr (c, done) ↦
              subst (Retries (a ∷ attempts))
                (sym (
                  ap
                    (λ x.
                      after_run codec name (run codec name symbols a) x
                        (start codec name symbols attempts))
                    done
                  ∙ after_run-stops _ c err _ e))
                (last-Retries a attempts (returned (some c)) (inr (c, done, refl)))
        ]
