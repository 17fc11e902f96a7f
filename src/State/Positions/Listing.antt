-- ===== src/State/Positions/Listing.antt =====
-- The open positions as lists: each one once, and those of a symbol.
use arb_bot.Prelude.{
  ◌≡◌, ◌≢◌, refl, List, [], ◌∷◌, Option, none, some, arith, Bool-cases, inl, inr, ◌==◌, text_eq,
  text_beq_iff, if◌then◌else◌, ◌>>=◌, Text, Map, IsMap, IsFresh, lookup, lookup-IsFresh, All,
  AllValues,
}
use arb_bot.State.Positions.{
  Position, PositionBook, values, open_positions, open_positions_by_symbol, of_symbol,
}
use arb_bot.State.Positions.Book.{IsBook}

module _ {W : Type 0} where
  unfoldable pub find : Text → List (Position W) → Option (Position W)
  find id [] = none
  find id (p ∷ ps) = if p.id == id then some p else find id ps

  abbrev pub NotIn : Text → List (Position W) → Type 0
  NotIn id [] = Unit {0}
  NotIn id (p ∷ ps) = (p.id ≢ id) × NotIn id ps

  -- The positions of the list have distinct ids.
  abbrev pub Distinct : List (Position W) → Type 0
  Distinct [] = Unit {0}
  Distinct (p ∷ ps) = NotIn p.id ps × Distinct ps

  pub find-NotIn : (id : Text) (ps : List (Position W)) → NotIn id ps → find id ps ≡ none
  unfolding find
  find-NotIn id [] h = refl
  find-NotIn id (p ∷ ps) h = ground (arith, text_beq_iff p.id id, find-NotIn id ps h.1)

  -- Every entry of the map stands under its id.
  abbrev Keyed : Map (Position W) → Type 0
  Keyed [] = Unit {0}
  Keyed ((k, p) ∷ m) = (p.id ≡ k) × Keyed m

  named→Keyed :
      (m : Map (Position W))
      → IsMap m
      → ((id : Text) (p : Position W) → lookup id m ≡ some p → p.id ≡ id)
      → Keyed m
  unfolding lookup
  named→Keyed [] h n = tt
  named→Keyed ((k, p) ∷ m) h n = (
    n k p (ground (arith, text_beq_iff k k)),
    named→Keyed m h.1
        λ id q e. n id q (ground (arith, e, text_beq_iff k id, lookup-IsFresh k m h.0)),
  )

  IsFresh-NotIn :
      (id symbol : Text) (m : Map (Position W))
      → Keyed m
      → IsFresh id m
      → NotIn id (of_symbol symbol (values m))
  unfolding of_symbol
  IsFresh-NotIn id symbol [] k h = tt
  IsFresh-NotIn id symbol ((j, p) ∷ m) k h =
      ground (arith, IsFresh-NotIn id symbol m k.1 h.1, k.0, h.0)

  of_symbol-Distinct :
      (symbol : Text) (m : Map (Position W))
      → IsMap m
      → Keyed m
      → Distinct (of_symbol symbol (values m))
  unfolding of_symbol
  of_symbol-Distinct symbol [] h k = tt
  of_symbol-Distinct symbol ((j, p) ∷ m) h k = elim (Bool-cases (p.symbol == symbol)) [
    | inl yours ↦
        rw yours (rw k.0 (IsFresh-NotIn j symbol m k.1 h.0), of_symbol-Distinct symbol m h.1 k.1)
    | inr other ↦ rw other (of_symbol-Distinct symbol m h.1 k.1)
  ]

  abbrev pub when_symbol : Text → Position W → Option (Position W)
  when_symbol symbol p = if p.symbol == symbol then some p else none

  find-of_symbol :
      (id symbol : Text) (m : Map (Position W))
      → IsMap m
      → Keyed m
      → find id (of_symbol symbol (values m)) ≡ (lookup id m >>= when_symbol symbol)
  unfolding find of_symbol lookup
  find-of_symbol id symbol [] h k = refl
  find-of_symbol id symbol ((j, p) ∷ m) h k = ground (
    arith,
    k.0,
    text_beq_iff j id,
    text_beq_iff p.id id,
    find-of_symbol id symbol m h.1 k.1,
    lookup-IsFresh j m h.0,
  )

  -- In a well-formed book the list of a symbol has, under an id, exactly what is open under that id if
  -- it is of the symbol, and nothing else.
  pub find-open_positions_by_symbol :
      (id symbol : Text) (b : PositionBook W)
      → IsBook b
      → find id (open_positions_by_symbol b symbol) ≡ (lookup id b.held >>= when_symbol symbol)
  unfolding open_positions_by_symbol
  find-open_positions_by_symbol id symbol b h =
      find-of_symbol id symbol b.held h.keys (named→Keyed b.held h.keys h.named)

  pub open_positions_by_symbol-Distinct :
      (symbol : Text) (b : PositionBook W) → IsBook b → Distinct (open_positions_by_symbol b symbol)
  unfolding open_positions_by_symbol
  open_positions_by_symbol-Distinct symbol b h =
      of_symbol-Distinct symbol b.held h.keys (named→Keyed b.held h.keys h.named)

  IsFresh-values : (id : Text) (m : Map (Position W)) → Keyed m → IsFresh id m → NotIn id (values m)
  IsFresh-values id [] k h = tt
  IsFresh-values id ((j, p) ∷ m) k h = (rw k.0 h.0, IsFresh-values id m k.1 h.1)

  values-Distinct : (m : Map (Position W)) → IsMap m → Keyed m → Distinct (values m)
  values-Distinct [] h k = tt
  values-Distinct ((j, p) ∷ m) h k =
      (rw k.0 (IsFresh-values j m k.1 h.0), values-Distinct m h.1 k.1)

  find-values :
      (id : Text) (m : Map (Position W)) → IsMap m → Keyed m → find id (values m) ≡ lookup id m
  unfolding find lookup
  find-values id [] h k = refl
  find-values id ((j, p) ∷ m) h k = rw k.0 (ground (arith, find-values id m h.1 k.1))

  -- The list of all open positions has each of them once, under its id.
  pub open_positions_lem :
      (b : PositionBook W)
      → IsBook b
      → Distinct (open_positions b) × ((id : Text) → find id (open_positions b) ≡ lookup id b.held)
  unfolding open_positions
  open_positions_lem b h =
      let keyed = named→Keyed b.held h.keys h.named in
      (values-Distinct b.held h.keys keyed, λ id. find-values id b.held h.keys keyed)

  All-of_symbol :
      (P : Position W → Type 0) (symbol : Text) (m : Map (Position W))
      → AllValues P m
      → All P (of_symbol symbol (values m))
  unfolding of_symbol
  All-of_symbol P symbol [] h = tt
  All-of_symbol P symbol ((j, p) ∷ m) h = elim (Bool-cases (p.symbol == symbol)) [
    | inl yours ↦ rw yours (h.0, All-of_symbol P symbol m h.1)
    | inr other ↦ rw other (All-of_symbol P symbol m h.1)
  ]

  pub All-open_positions_by_symbol :
      (P : Position W → Type 0) (symbol : Text) (b : PositionBook W)
      → AllValues P b.held
      → All P (open_positions_by_symbol b symbol)
  unfolding open_positions_by_symbol
  All-open_positions_by_symbol P symbol b h = All-of_symbol P symbol b.held h
