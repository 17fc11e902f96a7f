-- ===== src/Tables/Laws.antt =====
-- What a table holds after an update, and that a snapshot is a copy.
use mathlib.Core.List.{append-nil, append_assoc}
use arb_bot.Prelude.{
  ◌≡◌, refl, sym, ◌&&◌, [], ◌∷◌, ◌++◌, none, some, arith, inl, inr, Option-cases, if◌then◌else◌,
  ◌==◌, Text, text_eq, text_beq_iff, Map, IsMap, IsFresh, lookup, insert, lookup-insert,
  insert-eq-append, IsFresh-append, insert-IsMap, AllValues, insert-AllValues, lookup-AllValues,
}
use arb_bot.Tables.{
  Table, row, ensure_row, set_cell, put, copy_into, snapshot, copy_rows, snapshot_all,
}

module _ {ℓ} {V : Type ℓ} where
  row-insert :
      (k j : Text) (m : Map V) (t : Table V)
      → row j (insert k m t) ≡ (if k == j then m else row j t)
  unfolding row
  row-insert k j m t = ground (arith, lookup-insert k j m t)

  row-ensure_row : (k j : Text) (t : Table V) → row j (ensure_row k t) ≡ row j t
  unfolding ensure_row row
  row-ensure_row k j t = ground (arith, lookup-insert k j [] t, text_beq_iff k j)

  -- The cell that an update writes is read back, and every other cell is as before.
  pub lookup-row-put :
      (k j name other : Text) (v : V) (t : Table V)
      → lookup other (row j (put k name v t))
        ≡ (if k == j && name == other then some v else lookup other (row j t))
  unfolding put set_cell
  lookup-row-put k j name other v t = ground (
    arith,
    text_beq_iff k j,
    row-insert k j (insert name v (row k (ensure_row k t))) (ensure_row k t),
    row-ensure_row k j t,
    row-ensure_row k k t,
    lookup-insert name other v (row k t),
  )

  -- No key of the first map is a key of the second.
  abbrev AllFresh : Map V → Map V → Type 0
  AllFresh [] out = Unit {0}
  AllFresh ((k, v) ∷ m) out = IsFresh k out × AllFresh m out

  AllFresh-append :
      (m out : Map V) (k : Text) (v : V)
      → IsFresh k m
      → AllFresh m out
      → AllFresh m (out ++ (k, v) ∷ [])
  AllFresh-append [] out k v h a = tt
  AllFresh-append ((j, w) ∷ m) out k v h a =
      (IsFresh-append j k v out (λ e. h.0 (sym e)) a.0, AllFresh-append m out k v h.1 a.1)

  AllFresh-nil : (m : Map V) → AllFresh m []
  AllFresh-nil [] = tt
  AllFresh-nil ((k, v) ∷ m) = (tt, AllFresh-nil m)

  copy_into-eq-append : (out m : Map V) → IsMap m → AllFresh m out → copy_into out m ≡ out ++ m
  unfolding copy_into
  copy_into-eq-append out [] h a = sym (append-nil out)
  copy_into-eq-append out ((k, v) ∷ m) h a = rw (insert-eq-append k v out a.0) (
      rw (copy_into-eq-append (out ++ (k, v) ∷ []) m h.1 (AllFresh-append m out k v h.0 a.1))
        (append_assoc out ((k, v) ∷ []) m))

  -- Copying a map entry by entry gives the map.
  copy_into-eq : (m : Map V) → IsMap m → copy_into [] m ≡ m
  copy_into-eq m h = copy_into-eq-append [] m h (AllFresh-nil m)

  -- The symbols are distinct, and in each row the exchanges are.
  pub record IsTable (t : Table V) : Type ℓ where
    pub keys : IsMap t
    pub rows : AllValues IsMap t

  pub row-IsMap : (k : Text) (t : Table V) → AllValues IsMap t → IsMap (row k t)
  unfolding row
  row-IsMap k t h = elim (Option-cases (lookup k t)) [
    | inl e ↦ rw (e, row) tt
    | inr (m, e) ↦ rw (e, row) (lookup-AllValues IsMap k t h e)
  ]

  ensure_row-IsTable : (k : Text) (t : Table V) → IsTable t → IsTable (ensure_row k t)
  unfolding ensure_row
  ensure_row-IsTable k t h = elim (Option-cases (lookup k t)) [
    | inl e ↦
        rw (e, ensure_row)
          record {
            keys = insert-IsMap k [] t h.keys;
            rows = insert-AllValues IsMap k [] t tt h.rows;
          }
    | inr (m, e) ↦ rw (e, ensure_row) h
  ]

  pub put-IsTable : (k name : Text) (v : V) (t : Table V) → IsTable t → IsTable (put k name v t)
  unfolding put set_cell
  put-IsTable k name v t h =
      let h' = ensure_row-IsTable k t h in
      let r = row-IsMap k (ensure_row k t) h'.rows in
      record {
        keys = insert-IsMap k _ _ h'.keys;
        rows = insert-AllValues IsMap k _ _ (insert-IsMap name v _ r) h'.rows;
      }

  pub lookup-snapshot-nil : (k name : Text) → lookup name (snapshot {V = V} k []) ≡ none
  unfolding snapshot row copy_into lookup
  lookup-snapshot-nil k name = refl

  -- A snapshot of a symbol is the row itself, order included.
  pub snapshot-eq : (k : Text) (t : Table V) → IsTable t → snapshot k t ≡ row k t
  unfolding snapshot
  snapshot-eq k t h = copy_into-eq (row k t) (row-IsMap k t h.rows)

module _ {ℓ} {V : Type ℓ} where
  copy_rows-eq-copy_into : (out t : Table V) → AllValues IsMap t → copy_rows out t ≡ copy_into out t
  unfolding copy_rows copy_into
  copy_rows-eq-copy_into out [] h = refl
  copy_rows-eq-copy_into out ((k, m) ∷ t) h =
      rw (copy_into-eq m h.0) (copy_rows-eq-copy_into (insert k m out) t h.1)

  -- A snapshot of everything is the table itself.
  pub snapshot_all-eq : (t : Table V) → IsTable t → snapshot_all t ≡ t
  unfolding snapshot_all
  snapshot_all-eq t h = rw (copy_rows-eq-copy_into [] t h.rows) (copy_into-eq t h.keys)
