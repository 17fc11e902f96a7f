-- ===== src/State/Opportunities.antt =====
-- internal/state/opportunities.go: the log of the latest opportunities, newest first.
pub mod Log
use arb_bot.Prelude.{
  List, [], ◌∷◌, Option, none, some, if◌then◌else◌, ℤ, pos, pos_part, ltb_ℤ, length, take,
}
use arb_bot.Risk.{Decision}
use arb_bot.Execution.{Result}
use arb_bot.Strategy.Estimate.{Opportunity}

pub record OpportunityRecord (W : Type 0) : Type 0 where
  pub opportunity : Opportunity W
  pub decision : Decision
  pub execution : Result W

pub record OpportunityLog (W : Type 0) : Type 0 where
  pub limit : ℤ
  pub records : List (OpportunityRecord W)

module _ {W : Type 0} where
  unfoldable pub new_opportunity_log : ℤ → OpportunityLog W
  new_opportunity_log limit = record { limit = limit; records = [] }

  -- `none` is the panic of a slice to a negative length.
  unfoldable pub add : OpportunityLog W → OpportunityRecord W → Option (OpportunityLog W)
  add l r =
      let records = r ∷ l.records in
      if ltb_ℤ l.limit (pos (length records))
      then if ltb_ℤ l.limit (pos 0)
        then none
        else some (record l { records = take (pos_part l.limit) records })
      else some (record l { records = records })

  unfoldable pub list : OpportunityLog W → List (OpportunityRecord W)
  list l = l.records
