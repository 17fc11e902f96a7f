-- ===== src/State/Positions.antt =====
-- internal/state/positions.go: the open positions by id, and the closed ones, newest first.
pub mod Book
pub mod Listing
pub mod Pairs
pub mod Abstract
use arb_bot.Prelude.{
  ℕ, Bool, true, false, ◌&&◌, List, [], ◌∷◌, ◌++◌, Option, none, some, ◌==◌, text_eq, if◌then◌else◌,
  ℤ, pos, pos_part, leb_ℤ, ltb_ℤ, length, take, Text, Map, lookup, insert, erase,
}
use arb_bot.Clock.{Time}
use arb_bot.Float.{Float64, decimal, nought, ◌⊕◌}
use arb_bot.Exchange.{Name}

pub record Leg (W : Type 0) : Type 0 where
  pub exchange : Name
  pub entry_price : W
  pub exit_price : W
  pub fee_usd : W

pub data PositionStatus : Type 0 where
  position_opening position_open position_closing position_closed : PositionStatus

pub record Position (W : Type 0) : Type 0 where
  pub id : Text
  pub symbol : Text
  pub long_leg : Leg W
  pub short_leg : Leg W
  pub quantity : W
  pub status : PositionStatus
  pub opened_at : Time
  pub closed_at : Time
  pub target_funding_time : Time
  pub expected_carry_usd : W
  pub accrued_funding_usd : W
  pub realized_pnl_usd : W
  pub unrealized_pnl_usd : W
  pub close_reason : Text
  pub last_updated_at : Time

-- The field `open` is `held` here.
pub record PositionBook (W : Type 0) : Type 0 where
  pub held : Map (Position W)
  pub closed : List (Position W)
  pub limit : ℤ

-- `summary` with its keys as fields; `none` is a key that is not there.
pub record Summary (W : Type 0) : Type 0 where
  pub open_positions : W
  pub open_unrealized_pnl_usd : Option W
  pub open_accrued_funding_usd : Option W
  pub realized_pnl_usd : Option W
  pub realized_funding_usd : Option W

-- `for _, v := range m`
abbrev pub values {ℓ} : {V : Type ℓ} → Map V → List V
values [] = []
values ((k, v) ∷ m) = v ∷ values m

module _ {W : Type 0} where
  unfoldable pub new_position_book : ℤ → PositionBook W
  new_position_book limit = record {
    held = [];
    closed = [];
    limit = if leb_ℤ limit (pos 0) then pos 100 else limit;
  }

  unfoldable pub add : PositionBook W → Position W → PositionBook W
  add b p = record b { held = insert p.id p b.held }

  unfoldable pub update : PositionBook W → Position W → PositionBook W
  update b p = elim (lookup p.id b.held) [
    | none ↦ b
    | some _ ↦ record b { held = insert p.id p b.held }
  ]

  unfoldable pub close : PositionBook W → Position W → PositionBook W
  close b p =
      let closed = p ∷ b.closed in
      record b {
        held = erase p.id b.held;
        closed =
            if ltb_ℤ b.limit (pos (length closed)) then take (pos_part b.limit) closed else closed;
      }

  -- The test of the loop of `HasOpen`.
  abbrev pub is_pair : Text → Name → Name → Position W → Bool
  is_pair symbol long short p =
      p.symbol == symbol && (p.long_leg.exchange == long && p.short_leg.exchange == short)

  has_pair : Text → Name → Name → List (Position W) → Bool
  has_pair symbol long short [] = false
  has_pair symbol long short (p ∷ ps) =
      if is_pair symbol long short p then true else has_pair symbol long short ps

  unfoldable pub has_open : PositionBook W → Text → Name → Name → Bool
  unfolding has_pair
  has_open b symbol long short = has_pair symbol long short (values b.held)

  unfoldable pub open_count : PositionBook W → ℕ
  open_count b = length b.held

  unfoldable pub open_positions : PositionBook W → List (Position W)
  open_positions b = values b.held

  of_symbol : Text → List (Position W) → List (Position W)
  of_symbol symbol [] = []
  of_symbol symbol (p ∷ ps) =
      let rest = of_symbol symbol ps in if p.symbol == symbol then p ∷ rest else rest

  unfoldable pub open_positions_by_symbol : PositionBook W → Text → List (Position W)
  unfolding of_symbol
  open_positions_by_symbol b symbol = of_symbol symbol (values b.held)

  unfoldable pub history : PositionBook W → List (Position W)
  history b = b.closed

module _ {W : Type 0} ⦃f : Float64 W⦄ where
  -- `summary[key] += value`, where a missing key reads as 0.
  add_value : Option W → W → Option W
  add_value none value = some (nought ⊕ value)
  add_value (some total) value = some (total ⊕ value)

  -- `summary[key] += field(p)` over the positions; without a position there is no key.
  total_of : (Position W → W) → Option W → List (Position W) → Option W
  unfolding add_value
  total_of field total [] = total
  total_of field total (p ∷ ps) = total_of field (add_value total (field p)) ps

  unfoldable pub summary : PositionBook W → Summary W
  unfolding total_of
  summary b = record {
    open_positions = decimal (pos (length b.held)) 0;
    open_unrealized_pnl_usd = total_of (λ p. p.unrealized_pnl_usd) none (values b.held);
    open_accrued_funding_usd = total_of (λ p. p.accrued_funding_usd) none (values b.held);
    realized_pnl_usd = total_of (λ p. p.realized_pnl_usd) none b.closed;
    realized_funding_usd = total_of (λ p. p.accrued_funding_usd) none b.closed;
  }
