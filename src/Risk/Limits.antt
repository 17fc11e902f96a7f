-- ===== src/Risk/Limits.antt =====
-- Limits that are laxer approve at least as much.
use arb_bot.Prelude.{◌≡◌, ◌⊎◌, Bool, true, false, arith, inl, inr, ◌≤ℤ◌}
use arb_bot.Clock.{Time}
use arb_bot.Float.{Float64, IsIeee, nought, lt, ◌≼◌, ◌≺◌}
use arb_bot.Float.Order.{lt_of_lt_of_le, lt_of_le_of_lt}
use arb_bot.Strategy.Estimate.{Opportunity}
use arb_bot.Risk.{Config, notional, over_limit, too_close, check}
use arb_bot.Risk.Approval.{check-approved_iff}

-- `b` asks at most what `a` asks: lower minimums, and a trade limit that is lifted or not lower.
pub record IsLaxer {W : Type 0} ⦃f : Float64 W⦄ (a b : Config W) : Type 0 where
  pub limit :
      (lt nought b.max_trade_usd ≡ false)
      ⊎ ((nought ≺ a.max_trade_usd) × (a.max_trade_usd ≼ b.max_trade_usd))
  pub profit : b.min_profit_usd ≼ a.min_profit_usd
  pub profit_pct : b.min_profit_pct ≼ a.min_profit_pct
  pub window : b.min_time_to_funding ≤ℤ a.min_time_to_funding

module _ {W : Type 0} ⦃f : Float64 W⦄ (laws : IsIeee W) where
  not_lt_of_le : (x u v : W) → v ≼ u → lt x u ≡ false → lt x v ≡ false
  not_lt_of_le x u v h k = ground (arith, lt_of_lt_of_le laws x v u)

  over_limit_mono :
      (a b : Config W) (o : Opportunity W)
      → IsLaxer a b
      → over_limit a o ≡ false
      → over_limit b o ≡ false
  over_limit_mono a b o lax h = elim lax.limit [
    | inl lifted ↦ ground arith
    | inr (positive, higher) ↦
        ground (arith, lt_of_le_of_lt laws a.max_trade_usd b.max_trade_usd (notional o) higher)
  ]

  too_close_mono :
      (a b : Config W) (clock : Time) (o : Opportunity W)
      → IsLaxer a b
      → too_close a clock o ≡ false
      → too_close b clock o ≡ false
  too_close_mono a b clock o lax h = ground (arith, lax.window)

  -- For floats that obey IEEE 754: what is approved under one configuration is approved under every laxer one.
  pub check_mono :
      (a b : Config W) (cancelled : Bool) (clock : Time) (o : Opportunity W)
      → IsLaxer a b
      → (check a cancelled clock o).approved ≡ true
      → (check b cancelled clock o).approved ≡ true
  check_mono a b cancelled clock o lax h =
      let (alive, c) = (check-approved_iff a cancelled clock o).0 h in
      (check-approved_iff b cancelled clock o).1 (
        alive,
        record {
          notional_ok = c.notional_ok;
          limit_ok = over_limit_mono a b o lax c.limit_ok;
          profit_ok = not_lt_of_le _ _ _ lax.profit c.profit_ok;
          profit_pct_ok = not_lt_of_le _ _ _ lax.profit_pct c.profit_pct_ok;
          exchanges_ok = c.exchanges_ok;
          quantity_ok = c.quantity_ok;
          target_ok = c.target_ok;
          window_ok = too_close_mono a b clock o lax c.window_ok;
          rate_ok = c.rate_ok;
        },
      )
