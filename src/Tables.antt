-- ===== src/Tables.antt =====
-- The two-level maps of internal/marketdata/orderbook.go and internal/funding/store.go: the latest
-- value for each symbol and exchange. Each store is such a table behind its own operations.
pub mod Laws
pub mod Filed
use arb_bot.Prelude.{List, [], ◌∷◌, Option, none, some, Text, Map, lookup, insert}

abbrev pub Table {ℓ} : Type ℓ → Type ℓ
Table V = Map (Map V)

module _ {ℓ} {V : Type ℓ} where
  -- `m[k]`, for a map of maps: a missing key reads as the empty map.
  unfoldable pub row : Text → Table V → Map V
  unfolding lookup
  row k t = elim (lookup k t) [ none ↦ [] | some m ↦ m ]

  -- `if _, ok := t[k]; !ok { t[k] = make(...) }`
  ensure_row : Text → Table V → Table V
  unfolding lookup insert
  ensure_row k t = elim (lookup k t) [ none ↦ insert k [] t | some m ↦ t ]

  -- `t[k][name] = v`, on a row that is there.
  set_cell : Text → Text → V → Table V → Table V
  unfolding insert row
  set_cell k name v t = insert k (insert name v (row k t)) t

  unfoldable pub put : Text → Text → V → Table V → Table V
  unfolding ensure_row set_cell
  put k name v t = set_cell k name v (ensure_row k t)

  -- `for name, v := range m { out[name] = v }`
  copy_into : Map V → Map V → Map V
  unfolding insert
  copy_into out [] = out
  copy_into out ((name, v) ∷ m) = copy_into (insert name v out) m

  unfoldable pub snapshot : Text → Table V → Map V
  unfolding row copy_into
  snapshot k t = copy_into [] (row k t)

  -- `out[k] = make(...)`, and then the row's entries.
  copy_rows : Table V → Table V → Table V
  unfolding insert copy_into
  copy_rows out [] = out
  copy_rows out ((k, m) ∷ t) = copy_rows (insert k (copy_into [] m) out) t

  unfoldable pub snapshot_all : Table V → Table V
  unfolding copy_rows
  snapshot_all t = copy_rows [] t
