-- ===== src/Exchange/Levels.antt =====
-- internal/exchange/public_ws.go: the rows of a book that arrive as JSON, made into levels.
use arb_bot.Prelude.{
  ℕ, ◌≡◌, ◌&&◌, List, [], ◌∷◌, Option, none, some, Text, arith, leb, if◌then◌else◌, length, take,
  All, Bool-cases, leb→le, take-eq_of_le, inl, inr,
}
use arb_bot.Float.{Float64, nought, lt, ◌≺◌}
use arb_bot.Exchange.{Level}

module _ {W : Type 0} ⦃f : Float64 W⦄ where
  -- Both numbers of a level are positive, so neither is NaN.
  pub record IsPositive (l : Level W) : Type 0 where
    pub price_pos : nought ≺ l.price
    pub quantity_pos : nought ≺ l.quantity

  unfoldable pub trim_levels : List (Level W) → ℕ → List (Level W)
  trim_levels levels limit = if leb (length levels) limit then levels else take limit levels

  -- One row of `parseStringLevels`; the fields of a row behind the second are not read.
  -- `parse_float` is `strconv.ParseFloat(·, 64)`, with `none` for an error.
  string_row : (Text → Option W) → List Text → List (Level W) → List (Level W)
  string_row parse_float (p ∷ q ∷ _) rest = elim (parse_float p) [
    | none ↦ rest
    | some price ↦ elim (parse_float q) [
      | none ↦ rest
      | some qty ↦
          if lt nought price && lt nought qty
          then record { price = price; quantity = qty } ∷ rest
          else rest
    ]
  ]
  string_row parse_float _ rest = rest

  unfoldable pub parse_string_levels : (Text → Option W) → List (List Text) → List (Level W)
  unfolding string_row
  parse_string_levels parse_float [] = []
  parse_string_levels parse_float (row ∷ rows) =
      string_row parse_float row (parse_string_levels parse_float rows)

  float_row : List W → List (Level W) → List (Level W)
  float_row (p ∷ q ∷ _) rest =
      if lt nought p && lt nought q then record { price = p; quantity = q } ∷ rest else rest
  float_row _ rest = rest

  unfoldable pub parse_float_levels : List (List W) → List (Level W)
  unfolding float_row
  parse_float_levels [] = []
  parse_float_levels (row ∷ rows) = float_row row (parse_float_levels rows)

  string_row-IsPositive :
      (parse_float : Text → Option W) (row : List Text) (rest : List (Level W))
      → All IsPositive rest
      → All IsPositive (string_row parse_float row rest)
  unfolding string_row
  string_row-IsPositive parse_float (p ∷ q ∷ _) rest h = ground arith
  string_row-IsPositive parse_float _ rest h = h

  -- Every level of a book that is read from strings has a positive price and a positive quantity.
  pub parse_string_levels-IsPositive :
      (parse_float : Text → Option W) (rows : List (List Text))
      → All IsPositive (parse_string_levels parse_float rows)
  unfolding parse_string_levels
  parse_string_levels-IsPositive parse_float [] = tt
  parse_string_levels-IsPositive parse_float (row ∷ rows) =
      string_row-IsPositive parse_float row _ (parse_string_levels-IsPositive parse_float rows)

  float_row-IsPositive :
      (row : List W) (rest : List (Level W))
      → All IsPositive rest
      → All IsPositive (float_row row rest)
  unfolding float_row
  float_row-IsPositive (p ∷ q ∷ _) rest h = ground arith
  float_row-IsPositive _ rest h = h

  pub parse_float_levels-IsPositive :
      (rows : List (List W)) → All IsPositive (parse_float_levels rows)
  unfolding parse_float_levels
  parse_float_levels-IsPositive [] = tt
  parse_float_levels-IsPositive (row ∷ rows) =
      float_row-IsPositive row _ (parse_float_levels-IsPositive rows)

  -- A trimmed side keeps the first `limit` levels.
  pub trim_levels-eq :
      (levels : List (Level W)) (limit : ℕ) → trim_levels levels limit ≡ take limit levels
  unfolding trim_levels
  trim_levels-eq levels limit = elim (Bool-cases (leb (length levels) limit)) [
    | inl fits ↦ rw (fits, take-eq_of_le limit levels (leb→le _ _ fits))
    | inr long ↦ rw long
  ]
