-- ===== src/App/Scanner/Refresh/Decision.antt =====
-- What a round of `refreshPositions` leaves of a position.
use arb_bot.Prelude.{
  ap, Text, ◌≡◌, ◌⊎◌, ◌≤◌, ◌<◌, refl, true, false, Option, none, some, arith, Bool-cases, inl, inr,
  ltb→lt, ltb_ℤ, Map,
}
use arb_bot.Clock.{Time, Duration, before, sub_time}
use arb_bot.Float.{Float64, nought, le, ◌⊕◌}
use arb_bot.Exchange.{Name, OrderBookSnapshot}
use arb_bot.Funding
use arb_bot.State.Positions.{Position, position_closed}
use arb_bot.App.Scanner.Refresh.{
  Refreshed, skipped, kept, ended, decide, decide_at, exits, refresh_position, unrealized,
  carry_deteriorated, max_hold_time, funding_captured,
}

abbrev Trade : Type 0 → Type 0
Trade W = Text × Text × Name × Name × W × W × W

module _ {W : Type 0} ⦃f : Float64 W⦄ where
  -- Both have the same id, symbol, exchanges, entry prices and quantity.
  pub record SameTrade (p q : Position W) : Type 0 where
    pub id : q.id ≡ p.id
    pub symbol : q.symbol ≡ p.symbol
    pub long : q.long_leg.exchange ≡ p.long_leg.exchange
    pub short : q.short_leg.exchange ≡ p.short_leg.exchange
    pub long_entry : q.long_leg.entry_price ≡ p.long_leg.entry_price
    pub short_entry : q.short_leg.entry_price ≡ p.short_leg.entry_price
    pub quantity : q.quantity ≡ p.quantity

  abbrev trade : Position W → Trade W
  trade p = (
    p.id, p.symbol, p.long_leg.exchange, p.short_leg.exchange, p.long_leg.entry_price,
    p.short_leg.entry_price, p.quantity,
  )

  same_trade : (p q : Position W) → trade q ≡ trade p → SameTrade p q
  same_trade p q e = record {
    id = ap (λ (t : Trade W). t.0) e;
    symbol = ap (λ (t : Trade W). t.1) e;
    long = ap (λ (t : Trade W). t.2) e;
    short = ap (λ (t : Trade W). t.3) e;
    long_entry = ap (λ (t : Trade W). t.4) e;
    short_entry = ap (λ (t : Trade W). t.5) e;
    quantity = ap (λ (t : Trade W). t.6) e;
  }

  -- A position that is kept stays open as it is, with a new mark; one that is ended is closed at this
  -- instant, for one of three reasons. A funding difference that is not positive ends it with the
  -- gain of the prices alone; the end of the hold time or of the funding window ends it with the
  -- expected carry added.
  abbrev pub Verdict : Duration → Time → W → W → W → Position W → Refreshed W → Type 0
  Verdict max_hold now long short net p skipped = ⊥
  Verdict max_hold now long short net p (kept q) =
      SameTrade p q
      × (q.status ≡ p.status)
      × (q.unrealized_pnl_usd ≡ unrealized p long short)
      × (q.last_updated_at ≡ now)
      × (le net nought ≡ false)
      × (now < p.target_funding_time)
      × (ltb_ℤ (sub_time now p.opened_at) max_hold ≡ true)
  Verdict max_hold now long short net p (ended q) =
      SameTrade p q
      × (q.status ≡ position_closed)
      × (q.closed_at ≡ now)
      × (((q.close_reason ≡ carry_deteriorated)
            × (le net nought ≡ true)
            × (q.realized_pnl_usd ≡ unrealized p long short))
          ⊎ ((q.close_reason ≡ max_hold_time)
              × (ltb_ℤ (sub_time now p.opened_at) max_hold ≡ false)
              × (q.accrued_funding_usd ≡ p.expected_carry_usd)
              × (q.realized_pnl_usd ≡ unrealized p long short ⊕ p.expected_carry_usd))
          ⊎ ((q.close_reason ≡ funding_captured)
              × (p.target_funding_time ≤ now)
              × (q.accrued_funding_usd ≡ p.expected_carry_usd)
              × (q.realized_pnl_usd ≡ unrealized p long short ⊕ p.expected_carry_usd)))

  pub decide-Verdict :
      (max_hold : Duration) (now : Time) (long short net : W) (p : Position W)
      → Verdict max_hold now long short net p (decide max_hold now long short net p)
  unfolding decide
  decide-Verdict max_hold now long short net p = elim (Bool-cases (le net nought)) [
    | inl fallen ↦ rw fallen (same_trade p _ refl, refl, refl, inl (refl, fallen, refl))
    | inr positive ↦ elim (Bool-cases (before now p.target_funding_time)) [
      | inl waiting ↦ elim (Bool-cases (ltb_ℤ (sub_time now p.opened_at) max_hold)) [
        | inl early ↦
            rw (positive, waiting, early)
              (same_trade p _ refl, refl, refl, refl, positive, ltb→lt _ _ waiting, early)
        | inr late ↦
            rw (positive, waiting, late)
              (same_trade p _ refl, refl, refl, inr (inl (refl, late, refl, refl)))
      ]
      | inr due ↦ elim (Bool-cases (ltb_ℤ (sub_time now p.opened_at) max_hold)) [
        | inl early ↦
            rw (positive, due, early)
              (same_trade p _ refl, refl, refl, inr (inr (refl, ground arith, refl, refl)))
        | inr late ↦
            rw (positive, due, late)
              (same_trade p _ refl, refl, refl, inr (inl (refl, refl, refl, refl)))
      ]
    ]
  ]

  -- What a refresh may do to a trade.
  abbrev pub Keeps : Position W → Refreshed W → Type 0
  Keeps p skipped = Unit {0}
  Keeps p (kept q) = SameTrade p q × (q.status ≡ p.status)
  Keeps p (ended q) = SameTrade p q × (q.status ≡ position_closed)

  Verdict-Keeps :
      (max_hold : Duration) (now : Time) (long short net : W) (p : Position W) (r : Refreshed W)
      → Verdict max_hold now long short net p r
      → Keeps p r
  Verdict-Keeps max_hold now long short net p skipped v = tt
  Verdict-Keeps max_hold now long short net p (kept q) v = (v.0, v.1)
  Verdict-Keeps max_hold now long short net p (ended q) v = (v.0, v.1)

  pub refresh_position-Keeps :
      (max_hold : Duration) (books : Map (OrderBookSnapshot W))
      (fundings : Map (Funding.Snapshot W)) (now : Time) (p : Position W)
      → Keeps p (refresh_position max_hold books fundings now p)
  unfolding refresh_position
  refresh_position-Keeps max_hold books fundings now p = go (exits books fundings p)
    where
      go : (e : Option (W × W × W)) → Keeps p (decide_at max_hold now p e)
      go none = tt
      go (some (long, short, net)) =
          Verdict-Keeps max_hold now long short net p _
            (decide-Verdict max_hold now long short net p)
