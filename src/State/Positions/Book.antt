-- ===== src/State/Positions/Book.antt =====
-- The position book: every operation keeps it well formed, and what each one changes.
use arb_bot.Prelude.{
  ◌≤◌, ◌≡◌, ◌∷◌, none, some, arith, Option-cases, inl, inr, ◌==◌, text_eq, text_beq_iff,
  if◌then◌else◌, ℤ, pos, pos_part, ◌≤ℤ◌, length, take, take-eq_of_le, length-take, Text, IsMap,
  lookup, insert, lookup-insert, lookup-erase, insert-IsMap, erase-IsMap,
}
use arb_bot.State.Positions.{Position, PositionBook, new_position_book, add, update, close}

module _ {W : Type 0} where
  -- The ids are distinct and each position stands under its own; the history is within its limit.
  pub record IsBook (b : PositionBook W) : Type 0 where
    pub keys : IsMap b.held
    pub named : (id : Text) (p : Position W) → lookup id b.held ≡ some p → p.id ≡ id
    pub limit_pos : pos 1 ≤ℤ b.limit
    pub bounded : length b.closed ≤ pos_part b.limit

  pub new_position_book-IsBook : (limit : ℤ) → IsBook (new_position_book limit)
  unfolding new_position_book lookup
  new_position_book-IsBook limit = record {
    keys = tt;
    named = λ id p e. cc;
    limit_pos = ground arith;
    bounded = ground arith;
  }

  named-insert :
      (b : PositionBook W) (p : Position W)
      → IsBook b
      → (id : Text) (q : Position W) → lookup id (insert p.id p b.held) ≡ some q
      → q.id ≡ id
  named-insert b p h id q e =
      ground (arith, lookup-insert p.id id p b.held, text_beq_iff p.id id, h.named id q, e)

  pub add-IsBook : (b : PositionBook W) (p : Position W) → IsBook b → IsBook (add b p)
  unfolding add
  add-IsBook b p h = record {
    keys = insert-IsMap p.id p b.held h.keys;
    named = named-insert b p h;
    limit_pos = h.limit_pos;
    bounded = h.bounded;
  }

  pub update-IsBook : (b : PositionBook W) (p : Position W) → IsBook b → IsBook (update b p)
  unfolding update
  update-IsBook b p h = elim (Option-cases (lookup p.id b.held)) [
    | inl e ↦ rw (e, update) h
    | inr (q, e) ↦
        rw (e, update)
          record {
            keys = insert-IsMap p.id p b.held h.keys;
            named = named-insert b p h;
            limit_pos = h.limit_pos;
            bounded = h.bounded;
          }
  ]

  pub close-IsBook : (b : PositionBook W) (p : Position W) → IsBook b → IsBook (close b p)
  unfolding close
  close-IsBook b p h = record {
    keys = erase-IsMap p.id b.held h.keys;
    named = λ id q e.
        ground (arith, lookup-erase p.id id b.held h.keys, text_beq_iff p.id id, h.named id q, e);
    limit_pos = h.limit_pos;
    bounded = ground (arith, h.bounded, h.limit_pos, length-take (pos_part b.limit) (p ∷ b.closed));
  }

  close-closed :
      (b : PositionBook W) (p : Position W)
      → IsBook b
      → (close b p).closed ≡ take (pos_part b.limit) (p ∷ b.closed)
  unfolding close
  close-closed b p h = ground (arith, h.limit_pos, take-eq_of_le (pos_part b.limit) (p ∷ b.closed))

  -- In a well-formed book, closing takes the position out of the open ones and leaves the others; it
  -- becomes the newest entry of the history, which is then cut to the limit.
  pub close_lem :
      (b : PositionBook W) (p : Position W) (id : Text)
      → IsBook b
      → (lookup id (close b p).held ≡ (if p.id == id then none else lookup id b.held))
        × ((close b p).closed ≡ take (pos_part b.limit) (p ∷ b.closed))
        × (1 ≤ length (close b p).closed)
  unfolding close
  close_lem b p id h = (
    lookup-erase p.id id b.held h.keys,
    close-closed b p h,
    rw (close-closed b p h)
        (omega (arith, length-take (pos_part b.limit) (p ∷ b.closed), h.limit_pos)),
  )

  -- An update changes the position with its id if that is open, and nothing else.
  pub update_lem :
      (b : PositionBook W) (p : Position W) (id : Text)
      → lookup id (update b p).held ≡ elim (lookup p.id b.held) [
        | none ↦ lookup id b.held
        | some _ ↦ if p.id == id then some p else lookup id b.held
      ]
  unfolding update
  update_lem b p id = ground (arith, lookup-insert p.id id p b.held)
