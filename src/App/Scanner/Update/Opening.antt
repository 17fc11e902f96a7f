-- ===== src/App/Scanner/Update/Opening.antt =====
-- When a position is opened, and what is recorded then.
use arb_bot.Prelude.{
  ◌≡◌, ◌⊎◌, refl, sym, true, false, some, Option-cases, Bool-cases, inl, inr, arith, text_eq,
}
use mathlib.Core.Option.{some-injective}
use arb_bot.Float.{Float64}
use arb_bot.Exchange.{Error}
use arb_bot.Strategy.Estimate.{Opportunity}
use arb_bot.Risk.{check}
use arb_bot.Risk.Approval.{Clears, check-approved_iff}
use arb_bot.Execution.{Result, Outcome, execute, executed, failed}
use arb_bot.State.Positions
use arb_bot.State.Positions.{Position, has_open}
use arb_bot.State.Opportunities
use arb_bot.State.Opportunities.{OpportunityRecord, OpportunityLog}
use arb_bot.Storage.{enqueue, opportunity, position}
use arb_bot.App.Scanner.{Scanner, Moment}
use arb_bot.App.Scanner.Update.{new_position, record_open, try_open}

module _ {W : Type 0} ⦃f : Float64 W⦄ where
  -- A position for the opportunity was opened: no position was open for its pair, the checks
  -- approved it, the execution gave this result, and the position, the record and both events are there.
  pub record Opens (s : Scanner W) (m : Moment) (o : Opportunity W) (t : Scanner W) : Type 0 where
    pub result : Result W
    pub log : OpportunityLog W
    pub pair_free : has_open s.positions o.symbol o.long_exchange o.short_exchange ≡ false
    pub alive : m.cancelled ≡ false
    pub clears : Clears s.risk m.check_clock o
    pub execute_eq : execute s.engine m.first m.started m.finished o ≡ executed result
    pub add_eq :
        Opportunities.add s.opportunities (record {
          opportunity = o;
          decision = check s.risk m.cancelled m.check_clock o;
          execution = result;
        })
        ≡ some log
    pub scanner_eq : t ≡ record s {
      positions = Positions.add s.positions (new_position o result);
      opportunities = log;
      storage =
          enqueue
            (enqueue s.storage (
              opportunity (record {
                opportunity = o;
                decision = check s.risk m.cancelled m.check_clock o;
                execution = result;
              })))
            (position (new_position o result));
    }

  pub Outcome-cases :
      (r : Outcome W)
      → ((err : Error) × (r ≡ failed err)) ⊎ ((result : Result W) × (r ≡ executed result))
  Outcome-cases (failed err) = inl (err, refl)
  Outcome-cases (executed result) = inr (result, refl)

  record_open-Opens :
      (s : Scanner W) (m : Moment) (o : Opportunity W) (result : Result W) (t : Scanner W)
      → has_open s.positions o.symbol o.long_exchange o.short_exchange ≡ false
      → (check s.risk m.cancelled m.check_clock o).approved ≡ true
      → execute s.engine m.first m.started m.finished o ≡ executed result
      → record_open s o (check s.risk m.cancelled m.check_clock o) result ≡ some t
      → Opens s m o t
  unfolding record_open
  record_open-Opens s m o result t free approved done e =
      let entry : OpportunityRecord W = record {
        opportunity = o;
        decision = check s.risk m.cancelled m.check_clock o;
        execution = result;
      } in
      let (alive, clears) = (check-approved_iff s.risk m.cancelled m.check_clock o).0 approved in
      elim (Option-cases (Opportunities.add s.opportunities entry)) [
        | inl panic ↦ absurd (ground (arith, panic, e))
        | inr (log, added) ↦ record {
          result = result;
          log = log;
          pair_free = free;
          alive = alive;
          clears = clears;
          execute_eq = done;
          add_eq = added;
          scanner_eq = sym (some-injective _ _ (rw (added, record_open) at e));
        }
      ]

  -- Each attempt to open either leaves the scanner as it was, or opens a position for an opportunity
  -- that was approved and executed.
  pub try_open-Opens :
      (s : Scanner W) (m : Moment) (o : Opportunity W) (t : Scanner W)
      → try_open s m o ≡ some t
      → (t ≡ s) ⊎ Opens s m o t
  unfolding try_open
  try_open-Opens s m o t e =
      elim (Bool-cases (has_open s.positions o.symbol o.long_exchange o.short_exchange)) [
        | inl held ↦ inl (ground (arith, held, e))
        | inr free ↦ elim (Bool-cases (check s.risk m.cancelled m.check_clock o).approved) [
          | inr refused ↦ inl (ground (arith, free, refused, e))
          | inl approved ↦ elim (Outcome-cases (execute s.engine m.first m.started m.finished o)) [
            | inl (err, refused) ↦ inl (ground (arith, free, approved, refused, e))
            | inr (result, done) ↦ inr (
                record_open-Opens s m o result t free approved done
                  (rw (free, approved, done, try_open) at e))
          ]
        ]
      ]
