-- ===== src/Strategy/Depth/Smallest.antt =====
-- `minPositive` gives the smallest of the positive values.
use arb_bot.Prelude.{◌≡◌, ◌⊎◌, false, List, [], ◌∷◌, arith, Bool-cases, inl, inr, All}
use arb_bot.Float.{Float64, IsIeee, nought, le, lt, ◌≼◌, ◌≺◌}
use arb_bot.Strategy.Depth.{min_positive, min_positive_loop, min_step}

module _ {W : Type 0} ⦃f : Float64 W⦄ (laws : IsIeee W) where
  open laws use {nought_number, number_of_le, le_trans, le_total}

  min_positive_loop-le :
      (out : W) (values : List W)
      → nought ≺ out
      → (nought ≺ min_positive_loop out values) × (min_positive_loop out values ≼ out)
  unfolding min_positive_loop
  min_positive_loop-le out [] h = ground (arith, number_of_le nought out)
  min_positive_loop-le out (v ∷ vs) h = ground (
    arith,
    min_positive_loop-le out vs,
    min_positive_loop-le v vs,
    number_of_le v out,
    le_total v nought,
    nought_number,
    le_trans (min_positive_loop v vs) v out,
  )

  -- NaN stays.
  min_positive_loop-nan :
      (out : W) (values : List W)
      → le out out ≡ false
      → le nought (min_positive_loop out values) ≡ false
  unfolding min_positive_loop
  min_positive_loop-nan out [] h = ground (arith, number_of_le nought out)
  min_positive_loop-nan out (v ∷ vs) h =
      ground (arith, min_positive_loop-nan out vs h, number_of_le out nought, number_of_le v out)

  min_step-le :
      (out v : W)
      → lt out nought ≡ false
      → nought ≺ v
      → (le (min_step out v) (min_step out v) ≡ false)
        ⊎ ((nought ≺ min_step out v) × (min_step out v ≼ v))
  unfolding min_step
  min_step-le out v h k = elim (Bool-cases (le out out)) [
    | inl num ↦
        ground
          (arith, number_of_le nought v, le_total out nought num nought_number, le_total out v num)
    | inr nan ↦ ground (arith, number_of_le out nought, number_of_le v out, number_of_le nought v)
  ]

  min_step_nonneg : (out v : W) → lt out nought ≡ false → lt (min_step out v) nought ≡ false
  unfolding min_step
  min_step_nonneg out v h = ground arith

  min_positive_loop-smallest :
      (out : W) (values : List W)
      → lt out nought ≡ false
      → nought ≺ min_positive_loop out values
      → All (λ v. nought ≺ v → min_positive_loop out values ≼ v) values
  unfolding min_positive_loop
  min_positive_loop-smallest out [] h p = tt
  min_positive_loop-smallest out (v ∷ vs) h p = (
    λ k. elim (min_step-le out v h k) [
      | inl nan ↦ ground (arith, min_positive_loop-nan (min_step out v) vs nan)
      | inr (low, below) ↦ le_trans _ _ _ (min_positive_loop-le (min_step out v) vs low).1 below
    ],
    min_positive_loop-smallest (min_step out v) vs (min_step_nonneg out v h) p,
  )

  -- A positive result of `minPositive` is at most each positive value.
  pub min_positive-le :
      (values : List W)
      → nought ≺ min_positive values
      → All (λ v. nought ≺ v → min_positive values ≼ v) values
  unfolding min_positive
  min_positive-le values p =
      min_positive_loop-smallest nought values (ground (arith, nought_number)) p
