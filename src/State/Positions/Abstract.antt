-- ===== src/State/Positions/Abstract.antt =====
-- The position book against its contract: a partial function from ids to open positions, and the list of
-- all positions ever closed. The order of the map and the cut of the history are not part of it.
use mathlib.Core.List.{foldl}
use arb_bot.Prelude.{
  ◌≡◌, ◌↔◌, refl, sym, ap, ◌∙◌, true, List, [], ◌∷◌, Option, none, some, arith, Option-cases, inl,
  inr, ◌==◌, text_eq, if◌then◌else◌, ◌>>=◌, ℤ, pos, pos_part, leb_ℤ, take, take-eq_of_le,
  take-cons-take, Text, lookup, lookup-insert,
}
use arb_bot.State.Positions.{
  Position, PositionBook, new_position_book, add, update, close, has_open, open_positions_by_symbol,
  history,
}
use arb_bot.State.Positions.Book.{
  IsBook, new_position_book-IsBook, add-IsBook, update-IsBook, close-IsBook, close_lem,
}
use arb_bot.State.Positions.Listing.{find, when_symbol, find-open_positions_by_symbol}
use arb_bot.State.Positions.Pairs.{SamePair, has_open_iff}

-- A call of one of the operations that change the book.
pub data Op (W : Type 0) : Type 0 where
  adds updates closes : Position W → Op W

pub record Contract (W : Type 0) : Type 0 where
  pub held : Text → Option (Position W)
  pub closed : List (Position W)

module _ {W : Type 0} where
  abbrev pub apply_op : PositionBook W → Op W → PositionBook W
  apply_op b (adds p) = add b p
  apply_op b (updates p) = update b p
  apply_op b (closes p) = close b p

  abbrev pub set_at : Text → Option (Position W) → Contract W → Contract W
  set_at id o v = record v { held = λ other. if id == other then o else v.held other }

  abbrev pub contract_op : Contract W → Op W → Contract W
  contract_op v (adds p) = set_at p.id (some p) v
  contract_op v (updates p) = elim (v.held p.id) [ none ↦ v | some _ ↦ set_at p.id (some p) v ]
  contract_op v (closes p) = record (set_at p.id none v) { closed = p ∷ v.closed }

  abbrev pub nothing_held : Contract W
  nothing_held = record { held = λ id. none; closed = [] }

  -- The book implements the contract: it is well formed, holds the same positions under the same ids,
  -- and keeps the newest closed ones.
  pub record Refines (b : PositionBook W) (v : Contract W) : Type 0 where
    pub book : IsBook b
    pub held_eq : (id : Text) → lookup id b.held ≡ v.held id
    pub closed_eq : b.closed ≡ take (pos_part b.limit) v.closed

  add-Refines :
      (b : PositionBook W) (v : Contract W) (p : Position W)
      → Refines b v
      → Refines (add b p) (contract_op v (adds p))
  unfolding add
  add-Refines b v p h = record {
    book = add-IsBook b p h.book;
    held_eq = λ id. ground (arith, lookup-insert p.id id p b.held, h.held_eq id);
    closed_eq = h.closed_eq;
  }

  update-Refines :
      (b : PositionBook W) (v : Contract W) (p : Position W)
      → Refines b v
      → Refines (update b p) (contract_op v (updates p))
  unfolding update
  update-Refines b v p h = elim (Option-cases (v.held p.id)) [
    | inl e ↦ rw (e, contract_op) (rw (h.held_eq p.id ∙ e, update) h)
    | inr (q, e) ↦
        rw (e, contract_op)
          (rw (h.held_eq p.id ∙ e, update)
            record {
              book = rw (h.held_eq p.id ∙ e, update) at (update-IsBook b p h.book);
              held_eq = λ id. ground (arith, lookup-insert p.id id p b.held, h.held_eq id);
              closed_eq = h.closed_eq;
            })
  ]

  close-Refines :
      (b : PositionBook W) (v : Contract W) (p : Position W)
      → Refines b v
      → Refines (close b p) (contract_op v (closes p))
  unfolding close
  close-Refines b v p h =
      let (held, closed, _) = close_lem b p p.id h.book in
      record {
        book = close-IsBook b p h.book;
        held_eq = λ id. (close_lem b p id h.book).0 ∙ rw (h.held_eq id) refl;
        closed_eq = closed ∙ rw h.closed_eq (take-cons-take (pos_part b.limit) p v.closed);
      }

  apply_op-Refines :
      (b : PositionBook W) (v : Contract W) (op : Op W)
      → Refines b v
      → Refines (apply_op b op) (contract_op v op)
  apply_op-Refines b v (adds p) h = add-Refines b v p h
  apply_op-Refines b v (updates p) h = update-Refines b v p h
  apply_op-Refines b v (closes p) h = close-Refines b v p h

  pub foldl-Refines :
      (ops : List (Op W)) (b : PositionBook W) (v : Contract W)
      → Refines b v
      → Refines (foldl apply_op b ops) (foldl contract_op v ops)
  foldl-Refines [] b v h = h
  foldl-Refines (op ∷ ops) b v h =
      foldl-Refines ops (apply_op b op) (contract_op v op) (apply_op-Refines b v op h)

  new_position_book-Refines : (limit : ℤ) → Refines (new_position_book limit) nothing_held
  unfolding new_position_book lookup
  new_position_book-Refines limit = record {
    book = new_position_book-IsBook limit;
    held_eq = λ id. refl;
    closed_eq = sym (take-eq_of_le _ [] (omega arith));
  }

  -- The queries of the book answer as the contract says.
  pub record Answers (b : PositionBook W) (v : Contract W) : Type 0 where
    pub listed :
        (id symbol : Text)
        → find id (open_positions_by_symbol b symbol) ≡ (v.held id >>= when_symbol symbol)
    pub pairs :
        (p : Position W)
        → (has_open b p.symbol p.long_leg.exchange p.short_leg.exchange ≡ true)
          ↔ ((id : Text) × (q : Position W) × (v.held id ≡ some q) × SamePair p q)
    pub past : history b ≡ take (pos_part b.limit) v.closed

  Refines-Answers : (b : PositionBook W) (v : Contract W) → Refines b v → Answers b v
  unfolding history
  Refines-Answers b v h = record {
    listed = λ id symbol.
        find-open_positions_by_symbol id symbol b h.book
        ∙ ap (λ o. o >>= when_symbol symbol) (h.held_eq id);
    pairs = λ p. (
      (λ e.
          let (id, q, found, same) = (has_open_iff b p h.book).0 e in
          (id, q, sym (h.held_eq id) ∙ found, same)),
      λ (id, q, found, same). (has_open_iff b p h.book).1 (id, q, h.held_eq id ∙ found, same),
    );
    past = h.closed_eq;
  }

  apply_op-limit : (b : PositionBook W) (op : Op W) → (apply_op b op).limit ≡ b.limit
  unfolding add update close
  apply_op-limit b (adds p) = refl
  apply_op-limit b (updates p) = ground arith
  apply_op-limit b (closes p) = refl

  foldl-limit : (ops : List (Op W)) (b : PositionBook W) → (foldl apply_op b ops).limit ≡ b.limit
  foldl-limit [] b = refl
  foldl-limit (op ∷ ops) b = foldl-limit ops (apply_op b op) ∙ apply_op-limit b op

  -- After any sequence of additions, updates and closings, a new book answers every query as the
  -- contract does after the same sequence: the positions of a symbol, whether a pair is open, and the
  -- history, which is the newest part of all that was closed; and its limit is still that of the start,
  -- where a limit that is not positive means 100.
  pub new_position_book-Answers :
      (limit : ℤ) (ops : List (Op W))
      → Answers (foldl apply_op (new_position_book limit) ops) (foldl contract_op nothing_held ops)
        × ((foldl apply_op (new_position_book limit) ops).limit
            ≡ (if leb_ℤ limit (pos 0) then pos 100 else limit))
  unfolding new_position_book
  new_position_book-Answers limit ops = (
    Refines-Answers _ _ (foldl-Refines ops _ _ (new_position_book-Refines limit)),
    foldl-limit ops (new_position_book limit),
  )
