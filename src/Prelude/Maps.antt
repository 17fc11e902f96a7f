-- ===== src/Prelude/Maps.antt =====
-- Go's `map[string]V`: an association list whose keys are distinct.
use Prim.Native.Nat.{◌≤◌}
use mathlib.Core.Path.{◌≡◌, refl, subst}
use mathlib.Core.Logic.{◌≢◌, inl, inr}
use mathlib.Core.List.{List, [], ◌∷◌, ◌++◌}
use mathlib.Core.Option.{Option, none, some, some-injective}
use native.Mathlib.Omega.{arith}
use arb_bot.Prelude.Tests.{Bool-cases, ◌==◌, if◌then◌else◌}
use arb_bot.Prelude.Lists.{length}
use arb_bot.Prelude.Texts.{Text, text_beq_iff, text_eq}

abbrev pub Map {ℓ} : Type ℓ → Type ℓ
Map V = List (Text × V)

module _ {ℓ} {V : Type ℓ} where
  unfoldable pub lookup : Text → Map V → Option V
  lookup key [] = none
  lookup key ((name, v) ∷ rest) = if name == key then some v else lookup key rest

  unfoldable pub insert : Text → V → Map V → Map V
  insert key v [] = (key, v) ∷ []
  insert key v ((name, u) ∷ rest) =
      if name == key then (key, v) ∷ rest else (name, u) ∷ insert key v rest

  unfoldable pub erase : Text → Map V → Map V
  erase key [] = []
  erase key ((name, u) ∷ rest) = if name == key then rest else (name, u) ∷ erase key rest

  -- No entry of the map has this key.
  abbrev pub IsFresh : Text → Map V → Type 0
  IsFresh key [] = Unit {0}
  IsFresh key ((name, u) ∷ rest) = (name ≢ key) × IsFresh key rest

  -- The keys are distinct.
  abbrev pub IsMap : Map V → Type 0
  IsMap [] = Unit {0}
  IsMap ((name, u) ∷ rest) = IsFresh name rest × IsMap rest

  pub lookup-insert :
      (key name : Text) (v : V) (rest : Map V)
      → lookup name (insert key v rest) ≡ (if key == name then some v else lookup name rest)
  unfolding lookup insert
  lookup-insert key name v [] = refl
  lookup-insert key name v ((first, u) ∷ rest) = ground (
    arith,
    text_beq_iff key name,
    text_beq_iff first key,
    text_beq_iff first name,
    lookup-insert key name v rest,
  )

  pub lookup-IsFresh : (key : Text) (rest : Map V) → IsFresh key rest → lookup key rest ≡ none
  unfolding lookup
  lookup-IsFresh key [] h = refl
  lookup-IsFresh key ((name, u) ∷ rest) h =
      ground (arith, text_beq_iff name key, lookup-IsFresh key rest h.1)

  pub lookup-erase :
      (key name : Text) (rest : Map V)
      → IsMap rest
      → lookup name (erase key rest) ≡ (if key == name then none else lookup name rest)
  unfolding lookup erase
  lookup-erase key name [] h = ground arith
  lookup-erase key name ((first, u) ∷ rest) h = ground (
    arith,
    text_beq_iff key name,
    text_beq_iff first key,
    text_beq_iff first name,
    lookup-IsFresh first rest h.0,
    lookup-erase key name rest h.1,
  )

  pub insert-IsFresh :
      (first key : Text) (v : V) (rest : Map V)
      → key ≢ first
      → IsFresh first rest
      → IsFresh first (insert key v rest)
  unfolding insert
  insert-IsFresh first key v [] n h = (n, tt)
  insert-IsFresh first key v ((name, u) ∷ rest) n h =
      ground (arith, insert-IsFresh first key v rest n h.1)

  pub insert-IsMap : (key : Text) (v : V) (rest : Map V) → IsMap rest → IsMap (insert key v rest)
  unfolding insert
  insert-IsMap key v [] h = (tt, tt)
  insert-IsMap key v ((name, u) ∷ rest) h =
      ground
        (arith, text_beq_iff name key, insert-IsMap key v rest h.1, insert-IsFresh name key v rest)

  pub erase-IsFresh :
      (first key : Text) (rest : Map V) → IsFresh first rest → IsFresh first (erase key rest)
  unfolding erase
  erase-IsFresh first key [] h = tt
  erase-IsFresh first key ((name, u) ∷ rest) h = ground (arith, erase-IsFresh first key rest h.1)

  pub erase-IsMap : (key : Text) (rest : Map V) → IsMap rest → IsMap (erase key rest)
  unfolding erase
  erase-IsMap key [] h = tt
  erase-IsMap key ((name, u) ∷ rest) h =
      ground (arith, erase-IsMap key rest h.1, erase-IsFresh name key rest h.0)

  pub length-erase-le : (key : Text) (rest : Map V) → length (erase key rest) ≤ length rest
  unfolding erase
  length-erase-le key [] = omega arith
  length-erase-le key ((name, u) ∷ rest) = ground (arith, length-erase-le key rest)

  -- A new key goes to the end.
  pub insert-eq-append :
      (key : Text) (v : V) (rest : Map V)
      → IsFresh key rest
      → insert key v rest ≡ rest ++ (key, v) ∷ []
  unfolding insert
  insert-eq-append key v [] h = refl
  insert-eq-append key v ((name, u) ∷ rest) h =
      ground (arith, text_beq_iff name key, insert-eq-append key v rest h.1)

  pub IsFresh-append :
      (first key : Text) (v : V) (rest : Map V)
      → key ≢ first
      → IsFresh first rest
      → IsFresh first (rest ++ (key, v) ∷ [])
  IsFresh-append first key v [] n h = (n, tt)
  IsFresh-append first key v ((name, u) ∷ rest) n h = (h.0, IsFresh-append first key v rest n h.1)

module _ {ℓ κ} {V : Type ℓ} (P : V → Type κ) where
  -- Every value of the map has the property.
  abbrev pub AllValues : Map V → Type κ
  AllValues [] = Unit
  AllValues ((key, v) ∷ rest) = P v × AllValues rest

  pub insert-AllValues :
      (key : Text) (v : V) (rest : Map V) → P v → AllValues rest → AllValues (insert key v rest)
  unfolding insert
  insert-AllValues key v [] p h = (p, tt)
  insert-AllValues key v ((name, u) ∷ rest) p h = elim (Bool-cases (name == key)) [
    | inl same ↦ rw same (p, h.1)
    | inr other ↦ rw other (h.0, insert-AllValues key v rest p h.1)
  ]

  pub erase-AllValues : (key : Text) (rest : Map V) → AllValues rest → AllValues (erase key rest)
  unfolding erase
  erase-AllValues key [] h = tt
  erase-AllValues key ((name, u) ∷ rest) h = elim (Bool-cases (name == key)) [
    | inl same ↦ rw same h.1
    | inr other ↦ rw other (h.0, erase-AllValues key rest h.1)
  ]

  pub lookup-AllValues :
      (key : Text) (rest : Map V) {v : V} → AllValues rest → lookup key rest ≡ some v → P v
  unfolding lookup
  lookup-AllValues key [] h e = cc
  lookup-AllValues key ((name, u) ∷ rest) {v} h e = elim (Bool-cases (name == key)) [
    | inl same ↦ subst P (some-injective _ _ (rw same at e)) h.0
    | inr other ↦ lookup-AllValues key rest h.1 (rw other at e)
  ]
