-- ===== src/State/Positions/Pairs.antt =====
-- Open positions by symbol and exchanges: `HasOpen`, and that no two are for the same trade.
use arb_bot.Prelude.{
  ◌≡◌, ◌↔◌, sym, ◌∙◌, ◌⊎◌, true, false, [], ◌∷◌, some, arith, Bool-cases, inl, inr, text_eq,
  text_beq_iff, Text, Map, IsMap, lookup, insert, lookup-insert, lookup-IsFresh,
}
use arb_bot.Exchange.{Name}
use arb_bot.State.Positions.{Position, PositionBook, values, add, is_pair, has_pair, has_open}
use arb_bot.State.Positions.Book.{IsBook}

module _ {W : Type 0} where
  -- Both are for the same symbol on the same two exchanges.
  pub record SamePair (p q : Position W) : Type 0 where
    pub symbol : p.symbol ≡ q.symbol
    pub long : p.long_leg.exchange ≡ q.long_leg.exchange
    pub short : p.short_leg.exchange ≡ q.short_leg.exchange

  -- No two open positions are for the same symbol on the same exchanges.
  abbrev pub NoDuplicates : PositionBook W → Type 0
  NoDuplicates b =
      (i j : Text) (p q : Position W)
      → lookup i b.held ≡ some p
      → lookup j b.held ≡ some q
      → SamePair p q
      → i ≡ j

  has_pair-false :
      (symbol : Text) (long short : Name) (m : Map (Position W)) (id : Text) (p : Position W)
      → has_pair symbol long short (values m) ≡ false
      → lookup id m ≡ some p
      → is_pair symbol long short p ≡ false
  unfolding has_pair lookup
  has_pair-false symbol long short [] id p h e = cc
  has_pair-false symbol long short ((j, q) ∷ m) id p h e =
      ground (arith, has_pair-false symbol long short m id p, h, e)

  has_pair-true :
      (symbol : Text) (long short : Name) (m : Map (Position W))
      → IsMap m
      → has_pair symbol long short (values m) ≡ true
      → (id : Text) × (p : Position W) × (lookup id m ≡ some p)
        × (is_pair symbol long short p ≡ true)
  unfolding has_pair lookup
  has_pair-true symbol long short [] d h = absurd cc
  has_pair-true symbol long short ((j, q) ∷ m) d h =
      elim (Bool-cases (is_pair symbol long short q)) [
        | inl here ↦ (j, q, ground (arith, text_beq_iff j j), here)
        | inr other ↦
            let (id, p, e, pair) = has_pair-true symbol long short m d.1 (rw other at h) in
            (id, p, ground (arith, e, text_beq_iff j id, lookup-IsFresh j m d.0), pair)
      ]

  is_pair-SamePair :
      (p q : Position W)
      → is_pair p.symbol p.long_leg.exchange p.short_leg.exchange q ≡ true
      → SamePair p q
  is_pair-SamePair p q h = record {
    symbol = ground (arith, text_beq_iff q.symbol p.symbol);
    long = ground (arith, text_beq_iff q.long_leg.exchange p.long_leg.exchange);
    short = ground (arith, text_beq_iff q.short_leg.exchange p.short_leg.exchange);
  }

  SamePair-is_pair :
      (p q : Position W)
      → SamePair p q
      → is_pair p.symbol p.long_leg.exchange p.short_leg.exchange q ≡ true
  SamePair-is_pair p q h = ground (
    arith,
    h.symbol,
    h.long,
    h.short,
    text_beq_iff q.symbol p.symbol,
    text_beq_iff q.long_leg.exchange p.long_leg.exchange,
    text_beq_iff q.short_leg.exchange p.short_leg.exchange,
  )

  -- In a well-formed book, `HasOpen` answers yes exactly when a position with this symbol and these
  -- exchanges is open under some id.
  pub has_open_iff :
      (b : PositionBook W) (p : Position W)
      → IsBook b
      → (has_open b p.symbol p.long_leg.exchange p.short_leg.exchange ≡ true)
        ↔ ((id : Text) × (q : Position W) × (lookup id b.held ≡ some q) × SamePair p q)
  unfolding has_open
  has_open_iff b p h = (
    (λ e.
        let (id, q, found, pair) =
          has_pair-true p.symbol p.long_leg.exchange p.short_leg.exchange b.held h.keys e in
        (id, q, found, is_pair-SamePair p q pair)),
    λ (id, q, found, pair). ground (
      arith,
      has_pair-false p.symbol p.long_leg.exchange p.short_leg.exchange b.held id q,
      found,
      SamePair-is_pair p q pair,
    ),
  )

  SamePair-sym : (p q : Position W) → SamePair p q → SamePair q p
  SamePair-sym p q h = record { symbol = sym h.symbol; long = sym h.long; short = sym h.short }

  none_open :
      (b : PositionBook W) (p t : Position W) (id : Text)
      → has_open b p.symbol p.long_leg.exchange p.short_leg.exchange ≡ false
      → lookup id b.held ≡ some t
      → ¬ SamePair p t
  unfolding has_open
  none_open b p t id h e pair = ground (
    arith,
    SamePair-is_pair p t pair,
    has_pair-false p.symbol p.long_leg.exchange p.short_leg.exchange b.held id t,
  )

  -- What is open under an id after `Add`.
  added :
      (b : PositionBook W) (p q : Position W) (id : Text)
      → lookup id (insert p.id p b.held) ≡ some q
      → ((p.id ≡ id) × (p ≡ q)) ⊎ (lookup id b.held ≡ some q)
  added b p q id e = ground (arith, lookup-insert p.id id p b.held, text_beq_iff p.id id, e)

  -- A position for a pair that has none leaves the pairs distinct.
  pub add-NoDuplicates :
      (b : PositionBook W) (p : Position W)
      → NoDuplicates b
      → has_open b p.symbol p.long_leg.exchange p.short_leg.exchange ≡ false
      → NoDuplicates (add b p)
  unfolding add
  add-NoDuplicates b p n h i j q r ei ej same = elim (added b p q i ei) [
    | inl (a, x) ↦ elim (added b p r j ej) [
      | inl (c, _) ↦ sym a ∙ c
      | inr old ↦ absurd (none_open b p r j h old (rw x same))
    ]
    | inr was ↦ elim (added b p r j ej) [
      | inl (_, y) ↦ absurd (none_open b p q i h was (rw y (SamePair-sym q r same)))
      | inr old ↦ n i j q r was old same
    ]
  ]
