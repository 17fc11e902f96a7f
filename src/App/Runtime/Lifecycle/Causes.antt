-- ===== src/App/Runtime/Lifecycle/Causes.antt =====
-- The goroutines that `Run` waits for, and what makes it stop.
use mathlib.Core.List.{Memᴰ}
use mathlib.Core.List.Memᴰ.{head, tail}
use arb_bot.Prelude.{
  ◌≡◌, ◌≢◌, ◌⊎◌, refl, sym, ap, ◌∙◌, subst, arith, true, false, List, [], ◌∷◌, Option, Option-cases,
  Bool-cases, none, some, inl, inr, ◌==◌, text_eq, text_beq_iff,
}
use arb_bot.Exchange.{Error}
use arb_bot.App.Runtime.Lifecycle.{
  Goroutine, writer, connector, scanner, server, Event, signalled, ended, server_closed, same, done,
  cancels,
}

same-eq : (g h : Goroutine) → same g h ≡ true → g ≡ h
unfolding same
same-eq writer writer e = refl
same-eq writer (connector b) e = absurd cc
same-eq writer scanner e = absurd cc
same-eq writer server e = absurd cc
same-eq (connector a) writer e = absurd cc
same-eq (connector a) (connector b) e = ap connector ((text_beq_iff a b).0 e)
same-eq (connector a) scanner e = absurd cc
same-eq (connector a) server e = absurd cc
same-eq scanner writer e = absurd cc
same-eq scanner (connector b) e = absurd cc
same-eq scanner scanner e = refl
same-eq scanner server e = absurd cc
same-eq server writer e = absurd cc
same-eq server (connector b) e = absurd cc
same-eq server scanner e = absurd cc
same-eq server server e = refl

same_refl : (g : Goroutine) → same g g ≡ true
unfolding same
same_refl writer = refl
same_refl (connector a) = (text_beq_iff a a).1 refl
same_refl scanner = refl
same_refl server = refl

pub done-first : (g : Goroutine) (gs : List Goroutine) → done g (g ∷ gs) ≡ some gs
unfolding done
done-first g gs = rw (same_refl g) refl

-- A goroutine that was running is the one that returned, or is running still.
pub done-others :
    (g h : Goroutine) (gs rest : List Goroutine)
    → done g gs ≡ some rest
    → Memᴰ h gs
    → (h ≡ g) ⊎ Memᴰ h rest
unfolding done
done-others g h [] rest e m = absurd cc
done-others g h (k ∷ gs) rest e m = elim (Bool-cases (same g k)) [
  | inl yes_same ↦
      let left : gs ≡ rest = ground (arith, e, yes_same) in
      elim m [
        | head at ↦ inl (at ∙ sym (same-eq g k yes_same))
        | tail m' ↦ inr (subst (Memᴰ h) left m')
      ]
  | inr other ↦ elim (Option-cases (done g gs)) [
    | inl missing ↦ absurd (ground (arith, e, other, missing))
    | inr (others, found) ↦
        let left : k ∷ others ≡ rest = ground (arith, e, other, found) in
        elim m [
          | head at ↦ inr (subst (Memᴰ h) left (head at))
          | tail m' ↦ elim (done-others g h gs others found m') [
            | inl at ↦ inl at
            | inr m'' ↦ inr (subst (Memᴰ h) left (tail m''))
          ]
        ]
  ]
]

abbrev pub Ended : Goroutine → List Event → Type 0
Ended g es = (err : Option Error) × Memᴰ (ended g err) es

-- What makes `Run` stop: a signal, or a server that failed.
abbrev pub Stops : List Event → Type 0
Stops es =
    Memᴰ signalled es
    ⊎ ((err : Error) × Memᴰ (ended server (some err)) es × ((err == server_closed) ≡ false))

pub Stops-later : (e : Event) (es : List Event) → Stops es → Stops (e ∷ es)
Stops-later e es (inl m) = inl (tail m)
Stops-later e es (inr (err, m, fails)) = inr (err, tail m, fails)

-- An event that does not cancel is no cause.
pub Stops-before :
    (e : Event) (es : List Event)
    → signalled ≢ e
    → ((g : Goroutine) (err : Option Error) → ended g err ≡ e → cancels g err ≡ false)
    → Stops (e ∷ es)
    → Stops es
unfolding cancels
Stops-before e es quiet harmless (inl (head at)) = absurd (quiet at)
Stops-before e es quiet harmless (inl (tail m)) = inl m
Stops-before e es quiet harmless (inr (err, head at, fails)) =
    absurd (ground (arith, harmless server (some err) at, fails))
Stops-before e es quiet harmless (inr (err, tail m, fails)) = inr (err, m, fails)

pub cancels-Stops :
    (g : Goroutine) (err : Option Error) (es : List Event)
    → cancels g err ≡ true
    → Stops (ended g err ∷ es)
unfolding cancels
cancels-Stops writer err es h = absurd cc
cancels-Stops (connector a) err es h = absurd cc
cancels-Stops scanner err es h = absurd cc
cancels-Stops server none es h = absurd cc
cancels-Stops server (some err) es h = inr (err, head refl, ground (arith, h))
