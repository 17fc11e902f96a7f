-- ===== src/Risk/Approval.antt =====
-- An approval means that no test fails; and an approval under stricter limits is one under laxer ones.
use arb_bot.Prelude.{
  ◌≡◌, ◌≢◌, ◌↔◌, refl, Bool, true, false, not, ◌&&◌, List, [], ◌∷◌, arith, ◌==◌, text_eq,
  text_beq_iff,
}
use arb_bot.Clock.{Time, is_zero}
use arb_bot.Float.{Float64, nought, le, lt}
use arb_bot.Strategy.Estimate.{Opportunity}
use arb_bot.Risk.{Config, Reason, add_if, is_empty, notional, over_limit, too_close, collect, check}

is_empty-nil : is_empty [] ≡ true
unfolding is_empty
is_empty-nil = refl

is_empty-add_if :
    (test : Bool) (reason : Reason) (reasons : List Reason)
    → is_empty (add_if test reason reasons) ≡ not test && is_empty reasons
unfolding is_empty add_if
is_empty-add_if true reason [] = refl
is_empty-add_if true reason (r ∷ rs) = refl
is_empty-add_if false reason reasons = refl

module _ {W : Type 0} ⦃f : Float64 W⦄ where
  -- No test of the code finds fault with the opportunity.
  pub record Clears (cfg : Config W) (clock : Time) (o : Opportunity W) : Type 0 where
    pub notional_ok : le (notional o) nought ≡ false
    pub limit_ok : over_limit cfg o ≡ false
    pub profit_ok : lt o.expected_net_profit_usd cfg.min_profit_usd ≡ false
    pub profit_pct_ok : lt o.expected_net_profit_pct cfg.min_profit_pct ≡ false
    pub exchanges_ok : o.long_exchange ≢ o.short_exchange
    pub quantity_ok : le o.quantity nought ≡ false
    pub target_ok : o.target_funding_time ≢ 0
    pub window_ok : too_close cfg clock o ≡ false
    pub rate_ok : le o.net_funding_rate_pct nought ≡ false

  -- The tests in a row, the last of the code first.
  clear : Config W → Time → Opportunity W → Bool
  clear cfg clock o =
      not (le o.net_funding_rate_pct nought)
      && (not (too_close cfg clock o)
          && (not (is_zero o.target_funding_time)
              && (not (le o.quantity nought)
                  && (not (o.long_exchange == o.short_exchange)
                      && (not (lt o.expected_net_profit_pct cfg.min_profit_pct)
                          && (not (lt o.expected_net_profit_usd cfg.min_profit_usd)
                              && (not (over_limit cfg o)
                                  && (not (le (notional o) nought) && true))))))))

  is_empty-collect :
      (cfg : Config W) (clock : Time) (o : Opportunity W)
      → is_empty (collect cfg clock o) ≡ clear cfg clock o
  unfolding collect clear
  is_empty-collect cfg clock o = simp (is_empty-add_if, is_empty-nil)

  clear→Clears :
      (cfg : Config W) (clock : Time) (o : Opportunity W)
      → clear cfg clock o ≡ true
      → Clears cfg clock o
  unfolding clear
  clear→Clears cfg clock o h = ground (arith, text_beq_iff o.long_exchange o.short_exchange)

  Clears→clear :
      (cfg : Config W) (clock : Time) (o : Opportunity W)
      → Clears cfg clock o
      → clear cfg clock o ≡ true
  unfolding clear
  Clears→clear cfg clock o h = ground (arith, text_beq_iff o.long_exchange o.short_exchange)

  -- An opportunity is approved exactly when the context is alive and every test is passed.
  pub check-approved_iff :
      (cfg : Config W) (cancelled : Bool) (clock : Time) (o : Opportunity W)
      → ((check cfg cancelled clock o).approved ≡ true) ↔ ((cancelled ≡ false) × Clears cfg clock o)
  unfolding check
  check-approved_iff cfg true clock o = ground arith
  check-approved_iff cfg false clock o = (
    λ h. (refl, clear→Clears cfg clock o (rw is_empty-collect at h)),
    λ (_, h). rw is_empty-collect (Clears→clear cfg clock o h),
  )

  -- A decision gives no reason exactly when it is an approval.
  pub check-reasons_iff :
      (cfg : Config W) (cancelled : Bool) (clock : Time) (o : Opportunity W)
      → ((check cfg cancelled clock o).approved ≡ true)
        ↔ ((check cfg cancelled clock o).reasons ≡ [])
  unfolding check is_empty
  check-reasons_iff cfg true clock o = ground arith
  check-reasons_iff cfg false clock o = ground arith
