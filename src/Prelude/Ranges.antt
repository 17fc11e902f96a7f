-- ===== src/Prelude/Ranges.antt =====
-- Go's `range` over a map, which visits the entries in any order: the order is a list of keys.
use mathlib.Core.List.{Memᴰ}
use mathlib.Core.List.Memᴰ.{head, tail}
use mathlib.Core.Path.{◌≡◌, sym, ap, ◌∙◌, subst}
use mathlib.Core.Logic.{◌↔◌, ◌⊎◌, inl, inr}
use mathlib.Core.Option.{Option, none, some, some-injective}
use native.Mathlib.Omega.{arith}
use arb_bot.Prelude.Tests.{Bool-cases, Option-cases, ◌==◌, if◌then◌else◌}
use mathlib.Core.List.{List, [], ◌∷◌}
use arb_bot.Prelude.Maps.{Map}
use arb_bot.Prelude.Texts.{Text, text_eq}

module _ {ℓ} {V : Type ℓ} where
  -- The entry of a key, and the others.
  pub take_out : Text → Map V → Option ((Text × V) × Map V)
  take_out key [] = none
  take_out key ((name, v) ∷ rest) =
      let later = take_out key rest in
      if name == key
      then some ((name, v), rest)
      else elim later [ none ↦ none | some (entry, others) ↦ some (entry, (name, v) ∷ others) ]

  -- The entries of these keys in this order, and then the rest.
  unfoldable pub range : List Text → Map V → Map V
  unfolding take_out
  range [] entries = entries
  range (key ∷ order) entries = elim (take_out key entries) [
    | none ↦ range order entries
    | some (entry, others) ↦ entry ∷ range order others
  ]

  take_out-Memᴰ :
      (key : Text) (entries others : Map V) (entry : Text × V)
      → take_out key entries ≡ some (entry, others)
      → (x : Text × V) → Memᴰ x entries ↔ ((x ≡ entry) ⊎ Memᴰ x others)
  unfolding take_out
  take_out-Memᴰ key [] others entry e x = absurd cc
  take_out-Memᴰ key ((name, v) ∷ rest) others entry e x = elim (Bool-cases (name == key)) [
    | inl here ↦
        let (first, same) = pair_eq _ _ (rw (here, take_out) at e) in
        (
          λ m. elim m [ head at ↦ inl (at ∙ first) | tail n ↦ inr (subst (Memᴰ x) same n) ],
          λ s. elim s [
            | inl at ↦ head (at ∙ sym first)
            | inr n ↦ tail (subst (Memᴰ x) (sym same) n)
          ],
        )
    | inr other ↦ elim (Option-cases (take_out key rest)) [
      | inl missing ↦ absurd (ground (arith, e, other, missing))
      | inr ((found, left), later) ↦
          let (first, same) = pair_eq _ _ (rw (other, later, take_out) at e) in
          let others_of = take_out-Memᴰ key rest left found later x in
          (
            λ m. elim m [
              | head at ↦ inr (subst (Memᴰ x) same (head at))
              | tail n ↦ elim (others_of.0 n) [
                | inl at ↦ inl (at ∙ first)
                | inr n' ↦ inr (subst (Memᴰ x) same (tail n'))
              ]
            ],
            λ s. elim s [
              | inl at ↦ tail (others_of.1 (inl (at ∙ sym first)))
              | inr n ↦ elim (subst (Memᴰ x) (sym same) n) [
                | head at ↦ head at
                | tail n' ↦ tail (others_of.1 (inr n'))
              ]
            ],
          )
    ]
  ]
    where
      pair_eq : (p q : (Text × V) × Map V) → some p ≡ some q → (p.0 ≡ q.0) × (p.1 ≡ q.1)
      pair_eq p q h = (ap (λ p. p.0) (some-injective p q h), ap (λ p. p.1) (some-injective p q h))

  -- A range visits the entries of the map, in whatever order.
  pub range-Memᴰ :
      (order : List Text) (entries : Map V) (x : Text × V)
      → Memᴰ x (range order entries) ↔ Memᴰ x entries
  unfolding range
  range-Memᴰ [] entries x = ((λ m. m), λ m. m)
  range-Memᴰ (key ∷ order) entries x = elim (Option-cases (take_out key entries)) [
    | inl missing ↦ rw (missing, range) (range-Memᴰ order entries x)
    | inr ((entry, others), e) ↦
        let parts = take_out-Memᴰ key entries others entry e x in
        let rest = range-Memᴰ order others x in
        rw (e, range)
          (
            (λ m. elim m [ head at ↦ parts.1 (inl at) | tail n ↦ parts.1 (inr (rest.0 n)) ]),
            λ m. elim (parts.0 m) [ inl at ↦ head at | inr n ↦ tail (rest.1 n) ],
          )
  ]
