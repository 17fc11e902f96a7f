-- ===== src/Strategy/Depth.antt =====
-- internal/strategy/funding.go: the depth of one side of a book, and the helpers on numbers.
pub mod Smallest
pub mod Fill
pub mod Price
use arb_bot.Prelude.{ℕ, ◌+◌, ◌||◌, List, [], ◌∷◌, Option, none, some, if◌then◌else◌, ℤ, pos, leb_ℤ}
use arb_bot.Clock.{Time, is_zero, before}
use arb_bot.Float.{Float64, nought, le, lt, eq, ◌⊕◌, ◌⊖◌, ◌⊗◌, ◌⊘◌}
use arb_bot.Exchange.{Level}

module _ {W : Type 0} ⦃f : Float64 W⦄ where
  -- `qty := level.Quantity; if remaining := targetQty - filled; qty > remaining { qty = remaining }`
  pub taken : W → W → W → W
  taken target filled quantity =
      let remaining = target ⊖ filled in if lt remaining quantity then remaining else quantity

  -- The loop of `vwapForQuantity` at index i; `none` is `0, false`.
  pub vwap_loop : W → ℤ → ℕ → W → W → List (Level W) → Option W
  unfolding taken
  vwap_loop target max_depth i cost filled [] = none
  vwap_loop target max_depth i cost filled (l ∷ ls) =
      let qty = taken target filled l.quantity in
      let cost' = cost ⊕ qty ⊗ l.price in
      let filled' = filled ⊕ qty in
      let skipped = vwap_loop target max_depth (i + 1) cost filled ls in
      let rest = vwap_loop target max_depth (i + 1) cost' filled' ls in
      if leb_ℤ max_depth (pos i)
      then none
      else if le l.price nought || le l.quantity nought
      then skipped
      else if le target filled'
      then some (cost' ⊘ filled')
      else rest

  unfoldable pub vwap_for_quantity : List (Level W) → W → ℤ → Option W
  unfolding vwap_loop
  vwap_for_quantity levels target max_depth =
      if le target nought then none else vwap_loop target max_depth 0 nought nought levels

  sum_loop : ℤ → ℕ → W → List (Level W) → W
  sum_loop max_depth i total [] = total
  sum_loop max_depth i total (l ∷ ls) =
      let rest =
        sum_loop max_depth (i + 1) (if lt nought l.quantity then total ⊕ l.quantity else total)
          ls in
      if leb_ℤ max_depth (pos i) then total else rest

  unfoldable pub sum_quantity : List (Level W) → ℤ → W
  unfolding sum_loop
  sum_quantity levels max_depth = sum_loop max_depth 0 nought levels

  -- One round: the smallest positive value so far, 0 before the first.
  min_step : W → W → W
  min_step out value =
      if le value nought then out else if eq out nought || lt value out then value else out

  min_positive_loop : W → List W → W
  unfolding min_step
  min_positive_loop out [] = out
  min_positive_loop out (value ∷ values) = min_positive_loop (min_step out value) values

  unfoldable pub min_positive : List W → W
  unfolding min_positive_loop
  min_positive = min_positive_loop nought

  unfoldable pub max_float : W → W → W
  max_float a b = if lt b a then a else b

unfoldable pub min_time : Time → Time → Time
min_time a b = if is_zero a then b else if is_zero b || before a b then a else b
