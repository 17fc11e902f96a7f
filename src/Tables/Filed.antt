-- ===== src/Tables/Filed.antt =====
-- Tables in which a value stands under its own symbol and exchange: the laws that both stores share.
use arb_bot.Prelude.{
  ◌≡◌, ◌&&◌, [], some, arith, if◌then◌else◌, ◌==◌, text_eq, text_beq_iff, Text, lookup, IsMap,
}
use arb_bot.Tables.{Table, row, put, snapshot}
use arb_bot.Tables.Laws.{IsTable, row-IsMap, put-IsTable, snapshot-eq, lookup-row-put}

module _ {ℓ} {V : Type ℓ} (symbol_of name_of : V → Text) where
  pub record IsFiled (t : Table V) : Type ℓ where
    pub table : IsTable t
    pub named :
        (symbol name : Text) (v : V)
        → lookup name (row symbol t) ≡ some v
        → (symbol_of v ≡ symbol) × (name_of v ≡ name)

  pub nil-IsFiled : IsFiled []
  unfolding row lookup
  nil-IsFiled = record { table = record { keys = tt; rows = tt }; named = λ symbol name v e. cc }

  pub put-IsFiled : (v : V) (t : Table V) → IsFiled t → IsFiled (put (symbol_of v) (name_of v) v t)
  put-IsFiled v t h = record {
    table = put-IsTable (symbol_of v) (name_of v) v t h.table;
    named = λ symbol name w e. ground (
      arith,
      lookup-row-put (symbol_of v) symbol (name_of v) name v t,
      text_beq_iff (symbol_of v) symbol,
      text_beq_iff (name_of v) name,
      h.named symbol name w,
      e,
    );
  }

  pub lookup-snapshot-put :
      (v : V) (symbol name : Text) (t : Table V)
      → IsFiled t
      → lookup name (snapshot symbol (put (symbol_of v) (name_of v) v t)) ≡ (
          if symbol_of v == symbol && name_of v == name
          then some v
          else lookup name (snapshot symbol t))
  lookup-snapshot-put v symbol name t h =
      rw
        (
          snapshot-eq symbol t h.table,
          snapshot-eq symbol _ (put-IsTable (symbol_of v) (name_of v) v t h.table),
        )
        (lookup-row-put (symbol_of v) symbol (name_of v) name v t)

  pub lookup-snapshot-named :
      (symbol name : Text) (t : Table V) {v : V}
      → IsFiled t
      → lookup name (snapshot symbol t) ≡ some v
      → (symbol_of v ≡ symbol) × (name_of v ≡ name)
  lookup-snapshot-named symbol name t {v} h e =
      h.named symbol name v (rw (snapshot-eq symbol t h.table) at e)

  pub snapshot-IsMap : (symbol : Text) (t : Table V) → IsFiled t → IsMap (snapshot symbol t)
  snapshot-IsMap symbol t h = rw (snapshot-eq symbol t h.table) (row-IsMap symbol t h.table.rows)
