-- ===== src/Strategy/Depth/Fill.antt =====
-- What the volume-weighted price says about the depth of a side.
use arb_bot.Prelude.{
  ℕ, ◌+◌, ◌≡◌, refl, false, List, [], ◌∷◌, none, some, arith, Bool-cases, inl, inr, ℤ, ◌&&◌,
  if◌then◌else◌,
}
use arb_bot.Float.{Float64, IsIeee, nought, le, lt, ◌≼◌, ◌≺◌, ◌⊕◌, ◌⊖◌, ◌⊗◌}
use arb_bot.Exchange.{Level}
use arb_bot.Float.Order.{le_of_lt, lt_of_not_le}
use arb_bot.Strategy.Depth.{taken, vwap_loop, vwap_for_quantity, sum_loop, sum_quantity}

module _ {W : Type 0} ⦃f : Float64 W⦄ (laws : IsIeee W) where
  open laws use {
    nought_number, number_of_le, le_trans, le_total, number_of_add, add_mono, le_add_right, sub_pos,
  }

  -- From a filled quantity that is NaN nothing is returned, nor for a target that is NaN.
  pub vwap_loop-nan :
      (target : W) (depth : ℤ) (i : ℕ) (cost filled : W) (levels : List (Level W))
      → le target target && le filled filled ≡ false
      → vwap_loop target depth i cost filled levels ≡ none
  unfolding vwap_loop
  vwap_loop-nan target depth i cost filled [] h = refl
  vwap_loop-nan target depth i cost filled (l ∷ ls) h =
      let qty = taken target filled l.quantity in
      ground (
        arith,
        number_of_le target (filled ⊕ qty),
        number_of_add filled qty,
        vwap_loop-nan target depth (i + 1) cost filled ls h,
        vwap_loop-nan target depth (i + 1) (cost ⊕ qty ⊗ l.price) (filled ⊕ qty) ls,
      )

  -- What is taken of a level with a positive quantity.
  pub taken_bounds :
      (target filled quantity : W)
      → filled ≺ target
      → nought ≺ quantity
      → (nought ≼ taken target filled quantity) × (taken target filled quantity ≼ quantity)
  unfolding taken
  taken_bounds target filled quantity h k = ground (
    arith,
    sub_pos target filled,
    number_of_le nought quantity,
    number_of_le nought (target ⊖ filled),
    le_total (target ⊖ filled) quantity,
  )

  -- A quantity that is NaN is taken as it is.
  pub taken-nan :
      (target filled quantity : W)
      → le quantity quantity ≡ false
      → taken target filled quantity ≡ quantity
  unfolding taken
  taken-nan target filled quantity h = ground (arith, number_of_le (target ⊖ filled) quantity)

  added : W → W → W
  added total quantity = if lt nought quantity then total ⊕ quantity else total

  le-added : (total quantity : W) → nought ≼ total → total ≼ added total quantity
  unfolding added
  le-added total quantity h =
      ground (arith, le_add_right total quantity h, number_of_le nought total)

  le-sum_loop :
      (depth : ℤ) (i : ℕ) (total : W) (levels : List (Level W))
      → nought ≼ total
      → total ≼ sum_loop depth i total levels
  unfolding sum_loop added
  le-sum_loop depth i total [] h = (number_of_le _ _ h).1
  le-sum_loop depth i total (l ∷ ls) h =
      let more = le-added total l.quantity h in
      let whole = le-sum_loop depth (i + 1) (added total l.quantity) ls (le_trans _ _ _ h more) in
      ground (arith, number_of_le nought total, le_trans _ _ _ more whole)

  -- The loop, from a filled quantity below the target and a total that covers it.
  vwap_loop-sum_loop :
      (target : W) (depth : ℤ) (i : ℕ) (cost filled total : W) (levels : List (Level W)) (p : W)
      → nought ≼ filled
      → filled ≼ total
      → filled ≺ target
      → vwap_loop target depth i cost filled levels ≡ some p
      → target ≼ sum_loop depth i total levels
  unfolding vwap_loop sum_loop added
  vwap_loop-sum_loop target depth i cost filled total [] p low covered short e = cc
  vwap_loop-sum_loop target depth i cost filled total (l ∷ ls) p low covered short e =
      let qty = taken target filled l.quantity in
      let total' = added total l.quantity in
      let more = le-added total l.quantity (le_trans _ _ _ low covered) in
      let skip =
        vwap_loop-sum_loop target depth (i + 1) cost filled total' ls p low
          (le_trans _ _ _ covered more) short in
      elim (Bool-cases (lt nought l.quantity)) [
        | inl positive ↦
            let (qty_low, qty_le) = taken_bounds target filled l.quantity short positive in
            let filled' = filled ⊕ qty in
            let low' = le_trans _ _ _ low (le_add_right filled qty low qty_low) in
            let covered' : filled' ≼ total ⊕ l.quantity =
              add_mono filled qty total l.quantity low covered qty_low qty_le in
            ground (
              arith,
              skip,
              covered',
              le_trans target filled' total',
              le_trans target total' (sum_loop depth (i + 1) total' ls),
              le-sum_loop depth (i + 1) total' ls
                  (le_trans _ _ _ (le_trans _ _ _ low covered) more),
              lt_of_not_le laws target filled',
              (number_of_le filled target (le_of_lt laws filled target short)).1,
              (number_of_le _ _ low').1,
              vwap_loop-sum_loop target depth (i + 1) (cost ⊕ qty ⊗ l.price) filled' total' ls p
                  low',
            )
        | inr other ↦ ground (
          arith,
          skip,
          le_total l.quantity nought,
          nought_number,
          taken-nan target filled l.quantity,
          number_of_add filled l.quantity,
          number_of_le target (filled ⊕ l.quantity),
          vwap_loop-nan target depth (i + 1) (cost ⊕ qty ⊗ l.price) (filled ⊕ qty) ls,
        )
      ]

  -- For floats that obey IEEE 754: a price is returned only for a positive quantity that is not NaN and that the counted levels
  -- hold together.
  pub vwap_for_quantity-le :
      (levels : List (Level W)) (target : W) (depth : ℤ) {p : W}
      → vwap_for_quantity levels target depth ≡ some p
      → (nought ≺ target) × (target ≼ sum_quantity levels depth)
  unfolding vwap_for_quantity sum_quantity
  vwap_for_quantity-le levels target depth {p} e = elim (Bool-cases (le target target)) [
    | inl num ↦
        let sound =
          vwap_loop-sum_loop target depth 0 nought nought nought levels p nought_number
            nought_number in
        ground (arith, sound, lt_of_not_le laws target nought num nought_number)
    | inr nan ↦ ground (arith, vwap_loop-nan target depth 0 nought nought levels (ground arith))
  ]
