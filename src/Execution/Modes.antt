-- ===== src/Execution/Modes.antt =====
-- When an execution in the live mode fails.
use arb_bot.Prelude.{
  ◌≡◌, ◌↔◌, ◌⊎◌, refl, none, Option-cases, inl, inr, text_eq, text_beq_iff, lookup,
}
use arb_bot.Clock.{Time}
use arb_bot.Float.{Float64}
use arb_bot.Exchange.{OrderSide, Error}
use arb_bot.Strategy.Estimate.{Opportunity}
use arb_bot.Execution.{Engine, failed, mode_live, execute}

module _ {W : Type 0} ⦃f : Float64 W⦄ where
  -- In the live mode an execution fails exactly when one of the two connectors is missing.
  pub execute-live_iff :
      (e : Engine W) (first : OrderSide) (started finished : Time) (o : Opportunity W)
      → e.mode ≡ mode_live
      → ((err : Error) × (execute e first started finished o ≡ failed err)) ↔ (
          (lookup o.long_exchange e.connectors ≡ none)
          ⊎ (lookup o.short_exchange e.connectors ≡ none))
  unfolding execute
  execute-live_iff e first started finished o h =
      let live = (text_beq_iff e.mode mode_live).1 h in
      elim (Option-cases (lookup o.long_exchange e.connectors)) [
        | inl lost ↦ rw (live, lost) (λ _. inl refl, λ _. (_, refl))
        | inr (long, found) ↦ elim (Option-cases (lookup o.short_exchange e.connectors)) [
          | inl lost ↦ rw (live, found, lost) (λ _. inr refl, λ _. (_, refl))
          | inr (short, found') ↦
              rw (live, found, found') (λ (err, x). cc, λ s. elim s [ inl x ↦ cc | inr x ↦ cc ])
        ]
      ]
