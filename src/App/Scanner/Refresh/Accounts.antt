-- ===== src/App/Scanner/Refresh/Accounts.antt =====
-- The accounts of a position: what an open one and a closed one record of its gain.
use arb_bot.Prelude.{
  ◌≡◌, ◌⊎◌, refl, [], Bool-cases, Option-cases, inl, inr, All, AllValues, ltb_ℤ, Map, text_eq,
}
use arb_bot.Clock.{Time, Duration, before, sub_time}
use arb_bot.Float.{Float64, nought, le, ◌⊕◌}
use arb_bot.Exchange.{OrderBookSnapshot}
use arb_bot.Funding
use arb_bot.State.Positions.{Position, PositionBook, position_open, position_closed}
use arb_bot.App.Scanner.Refresh.{
  Refreshed, skipped, kept, ended, unrealized, decide, decide_at, exits, refresh_position,
  carry_deteriorated, max_hold_time, funding_captured,
}

module _ {W : Type 0} ⦃f : Float64 W⦄ where
  -- What the prices at which the legs were left give.
  abbrev pub gain_of : Position W → W
  gain_of p = unrealized p p.long_leg.exit_price p.short_leg.exit_price

  -- An open position has nothing realized and no reason to be closed.
  pub record IsLive (p : Position W) : Type 0 where
    pub status_eq : p.status ≡ position_open
    pub reason_eq : p.close_reason ≡ []
    pub accrued_eq : p.accrued_funding_usd ≡ nought
    pub realized_eq : p.realized_pnl_usd ≡ nought

  -- A position that lost its carry has realized the gain of its prices; another one has accrued the
  -- carry that was expected of it, and has realized both.
  abbrev pub Settlement : Position W → Type 0
  Settlement p =
      ((p.close_reason ≡ carry_deteriorated)
        × (p.accrued_funding_usd ≡ nought)
        × (p.realized_pnl_usd ≡ gain_of p))
      ⊎ (((p.close_reason ≡ funding_captured) ⊎ (p.close_reason ≡ max_hold_time))
          × (p.accrued_funding_usd ≡ p.expected_carry_usd)
          × (p.realized_pnl_usd ≡ gain_of p ⊕ p.expected_carry_usd))

  pub record IsSettled (p : Position W) : Type 0 where
    pub status_eq : p.status ≡ position_closed
    pub closed_eq : p.closed_at ≡ p.last_updated_at
    pub unrealized_eq : p.unrealized_pnl_usd ≡ gain_of p
    pub settlement : Settlement p

  pub record IsAccounted (b : PositionBook W) : Type 0 where
    pub live : AllValues IsLive b.held
    pub settled : All IsSettled b.closed

  abbrev pub Settles : Refreshed W → Type 0
  Settles skipped = Unit {0}
  Settles (kept q) = IsLive q
  Settles (ended q) = IsSettled q

  decide-Settles :
      (max_hold : Duration) (now : Time) (long short net : W) (p : Position W)
      → IsLive p
      → Settles (decide max_hold now long short net p)
  unfolding decide unrealized
  decide-Settles max_hold now long short net p h = elim (Bool-cases (le net nought)) [
    | inl lost ↦
        rw (lost, decide)
          record {
            status_eq = refl;
            closed_eq = refl;
            unrealized_eq = refl;
            settlement = inl (refl, h.accrued_eq, refl);
          }
    | inr paid ↦ elim (Bool-cases (before now p.target_funding_time)) [
      | inl early ↦ elim (Bool-cases (ltb_ℤ (sub_time now p.opened_at) max_hold)) [
        | inl short_held ↦
            rw (paid, early, short_held, decide)
              record {
                status_eq = h.status_eq;
                reason_eq = h.reason_eq;
                accrued_eq = h.accrued_eq;
                realized_eq = h.realized_eq;
              }
        | inr long_held ↦
            rw (paid, early, long_held, decide)
              record {
                status_eq = refl;
                closed_eq = refl;
                unrealized_eq = refl;
                settlement = inr (inr refl, refl, refl);
              }
      ]
      | inr late ↦ elim (Bool-cases (ltb_ℤ (sub_time now p.opened_at) max_hold)) [
        | inl short_held ↦
            rw (paid, late, short_held, decide)
              record {
                status_eq = refl;
                closed_eq = refl;
                unrealized_eq = refl;
                settlement = inr (inl refl, refl, refl);
              }
        | inr long_held ↦
            rw (paid, late, long_held, decide)
              record {
                status_eq = refl;
                closed_eq = refl;
                unrealized_eq = refl;
                settlement = inr (inr refl, refl, refl);
              }
      ]
    ]
  ]

  pub refresh_position-Settles :
      (max_hold : Duration) (books : Map (OrderBookSnapshot W))
      (fundings : Map (Funding.Snapshot W)) (now : Time) (p : Position W)
      → IsLive p
      → Settles (refresh_position max_hold books fundings now p)
  unfolding refresh_position
  refresh_position-Settles max_hold books fundings now p h =
      elim (Option-cases (exits books fundings p)) [
        | inl e ↦ rw (e, decide_at) tt
        | inr (x, e) ↦ rw (e, decide_at) (decide-Settles max_hold now x.0 x.1 x.2 p h)
      ]
