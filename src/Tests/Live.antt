-- ===== src/Tests/Live.antt =====
-- Examples of the live mode.
use arb_bot.Prelude.{text_beq, ◌≡◌, ◌+◌, refl, false, true, [], ◌∷◌, some, pos, text_eq, lookup}
use arb_bot.Clock.{sub_time}
use arb_bot.Float.Fixed.{Fixed, fixed_float}
use arb_bot.Exchange.{buy}
use arb_bot.Exchange.Stub.{public_ws_connector}
use arb_bot.Exchange.Adapters.{new_okx, new_bybit}
use arb_bot.Risk.{add_if, collect, is_empty, check}
use arb_bot.Risk.Approval.{check-approved_iff}
use arb_bot.Execution.{place_both, execute, executed, Result, mode_live, needs_reconcile, no_order}
use arb_bot.State.Positions
use arb_bot.State.Positions.{has_open, Position, position_open}
use arb_bot.State.Opportunities
use arb_bot.State.Opportunities.{OpportunityRecord}
use arb_bot.Storage.{enqueue, opportunity, position}
use arb_bot.App.Config.{Config, default_config}
use arb_bot.App.Scanner.{Scanner}
use arb_bot.App.Scanner.Update.{new_position}
use arb_bot.App.Scanner.Update.Opening.{Opens}
use arb_bot.App.Runtime.{build_connectors, is_enabled, new_runtime, started}
use arb_bot.App.Runtime.Invariant.{Reachable-IsSafe}
use arb_bot.App.Runtime.Built.{live-opens-unfilled}
use arb_bot.Tests.Data.{now, found}
use arb_bot.Tests.Runtime.{cfg, moment}

abbrev live_cfg : Config Fixed
live_cfg = record cfg { trading = record cfg.trading { mode = mode_live } }

abbrev live_start : Scanner Fixed
live_start = new_runtime live_cfg

abbrev live_result : Result Fixed
live_result = record {
  opportunity_id = found.id;
  mode = mode_live;
  long_order = no_order;
  short_order = no_order;
  status = needs_reconcile;
  started_at = now;
  finished_at = now + 1;
}

abbrev live_entry : OpportunityRecord Fixed
live_entry = record {
  opportunity = found;
  decision = check live_start.risk false now found;
  execution = live_result;
}

abbrev live_after : Scanner Fixed
live_after = record live_start {
  positions = Positions.add live_start.positions (new_position found live_result);
  opportunities = record { limit = pos 100; records = live_entry ∷ [] };
  storage =
      enqueue (enqueue live_start.storage (opportunity live_entry))
        (position (new_position found live_result));
}

live_free :
    has_open live_start.positions found.symbol found.long_exchange found.short_exchange ≡ false
unfolding has_open new_runtime Positions.new_position_book
live_free = refl

live_approved : (check live_start.risk false now found).approved ≡ true
unfolding check is_empty collect add_if fixed_float new_runtime default_config sub_time text_beq
live_approved = refl

live_executed : execute live_start.engine buy now (now + 1) found ≡ executed live_result
unfolding execute text_beq new_runtime lookup build_connectors is_enabled default_config place_both
    public_ws_connector new_okx new_bybit
live_executed = refl

live_logged :
    Opportunities.add live_start.opportunities live_entry
    ≡ some (record { limit = pos 100; records = live_entry ∷ [] })
unfolding Opportunities.add new_runtime Opportunities.new_opportunity_log
live_logged = refl

live_opens : Opens live_start moment found live_after
live_opens = record {
  result = live_result;
  log = record { limit = pos 100; records = live_entry ∷ [] };
  pair_free = live_free;
  alive = refl;
  clears = ((check-approved_iff live_start.risk false now found).0 live_approved).1;
  execute_eq = live_executed;
  add_eq = live_logged;
  scanner_eq = refl;
}

live-opens-unfilled_example :
    (live_result.status ≡ needs_reconcile)
    × (live_result.long_order ≡ no_order)
    × (live_result.short_order ≡ no_order)
    × (p : Position Fixed) × (lookup found.id live_after.positions.held ≡ some p)
    × (p.status ≡ position_open)
    × (p.quantity ≡ found.quantity)
unfolding live_opens
live-opens-unfilled_example =
    live-opens-unfilled live_cfg live_start moment found live_after refl
      (Reachable-IsSafe live_cfg live_start (started refl)) live_opens
