-- ===== src/Tests/Runtime.antt =====
-- Examples of the scanner and of the runtime.
use arb_bot.Strategy.Ident.{new_opportunity_id}
use arb_bot.Strategy.Depth.{min_time, vwap_for_quantity, sum_quantity, max_float, min_positive}
use arb_bot.Prelude.{
  range, wrap64, text_beq, ◌≡◌, ◌⊎◌, ◌+◌, refl, false, true, [], ◌∷◌, some, arith, Map, pos,
  text_eq, lookup,
}
use mathlib.Core.List.Memᴰ.{head, tail}
use arb_bot.Clock.{saturate, unix_nano, sub_time}
use arb_bot.Float.Fixed.{Fixed, fixed_float}
use arb_bot.Float.Fixed.Ieee.{Fixed-IsIeee}
use arb_bot.Exchange.{OrderBookSnapshot, bybit, okx, buy, sell}
use arb_bot.MarketData
use arb_bot.Funding
use arb_bot.Risk.{add_if, collect, is_empty, check}
use arb_bot.Execution.{execute, Result, mode_paper, paper_open, paper_order}
use arb_bot.State.Positions
use arb_bot.State.Positions.{has_open, Position, position_open}
use arb_bot.State.Positions.Book.{add-IsBook}
use arb_bot.State.Opportunities
use arb_bot.State.Opportunities.{OpportunityRecord}
use arb_bot.Storage.{enqueue, opportunity, position}
use arb_bot.App.Config.{Config, FeeConfig, default_config}
use arb_bot.Strategy.Estimate.{
  priced, thresholds, fill_prices, target_quantity, with_tops, estimate_funding, accepted,
}
use arb_bot.App.Scanner.{
  keep_best, taker_fee_pct, Scanner, Moment, Visit, usable, estimate_input, best_opportunity,
}
use arb_bot.App.Scanner.Best.{Candidate, Covers, best_opportunity-Covers}
use arb_bot.App.Scanner.Found.{best_opportunity-Candidate}
use arb_bot.App.Scanner.Refresh.{refresh_positions}
use arb_bot.App.Scanner.Refresh.Once.{Treats, refresh_positions-Treats}
use arb_bot.App.Scanner.Update.{record_open, new_position, try_open}
use arb_bot.App.Scanner.Update.Opening.{Opens, try_open-Opens}
use arb_bot.App.Runtime.{new_runtime, handle_update, handled, started, stepped}
use arb_bot.App.Runtime.Invariant.{IsSafe, Reachable-IsSafe, handle_update-IsSafe}
use arb_bot.Tests.Data.{
  cents, now, symbol, long_book, short_book, long_funding, short_funding, found,
}

abbrev fee : FeeConfig Fixed
fee = record { maker_pct = cents 2; taker_pct = cents 5 }

abbrev pub cfg : Config Fixed
cfg = record default_config { fees = (bybit, fee) ∷ (okx, fee) ∷ [] }

-- The second exchange first.
abbrev visit : Visit
visit = record { longs = okx ∷ []; shorts = λ name. okx ∷ bybit ∷ [] }

abbrev pub moment : Moment
moment = record {
  cancelled = false;
  funding_clock = now;
  estimate_clock = now;
  check_clock = now;
  started = now;
  finished = now + 1;
  first = buy;
  visit = visit;
}

abbrev books : Map (OrderBookSnapshot Fixed)
books = (bybit, long_book) ∷ (okx, short_book) ∷ []

abbrev fundings : Map (Funding.Snapshot Fixed)
fundings = (bybit, long_funding) ∷ (okx, short_funding) ∷ []

long_used : usable cfg fundings now (bybit, long_book) ≡ some long_funding
unfolding usable MarketData.is_fresh sub_time default_config lookup text_beq
long_used = refl

short_used : usable cfg fundings now (okx, short_book) ≡ some short_funding
unfolding usable MarketData.is_fresh sub_time default_config lookup text_beq
short_used = refl

estimated :
    estimate_funding now (
      estimate_input cfg symbol now
        (bybit, long_book, long_funding)
        (okx, short_book, short_funding))
    ≡ accepted found
unfolding estimate_funding estimate_input with_tops fixed_float target_quantity min_positive
    default_config max_float sum_quantity fill_prices vwap_for_quantity thresholds priced
    taker_fee_pct lookup text_beq new_opportunity_id min_time unix_nano wrap64
estimated = refl

candidate : Candidate cfg symbol now now fundings books found
candidate = record {
  long = (bybit, long_book);
  short = (okx, short_book);
  long_funding = long_funding;
  short_funding = short_funding;
  long_listed = head refl;
  short_listed = tail (head refl);
  distinct = λ e. ground (arith, e);
  long_usable = long_used;
  short_usable = short_used;
  estimate_eq = estimated;
}

best_opportunity-Covers_example :
    Covers (best_opportunity cfg symbol now now fundings visit books) found
best_opportunity-Covers_example =
    best_opportunity-Covers Fixed-IsIeee cfg symbol now now fundings visit books found candidate

best : best_opportunity cfg symbol now now fundings visit books ≡ some found
unfolding best_opportunity MarketData.is_fresh sub_time keep_best usable saturate estimate_funding
    estimate_input with_tops fixed_float target_quantity min_positive default_config max_float
    sum_quantity fill_prices vwap_for_quantity thresholds priced taker_fee_pct lookup text_beq
    new_opportunity_id min_time unix_nano wrap64 range
best = refl

best_opportunity-Candidate_example : Candidate cfg symbol now now fundings books found
best_opportunity-Candidate_example =
    best_opportunity-Candidate cfg symbol now now fundings visit books found best

abbrev start : Scanner Fixed
start = new_runtime cfg

abbrev paper_result : Result Fixed
paper_result = record {
  opportunity_id = found.id;
  mode = mode_paper;
  long_order = paper_order found buy;
  short_order = paper_order found sell;
  status = paper_open;
  started_at = now;
  finished_at = now + 1;
}

abbrev entry : OpportunityRecord Fixed
entry = record {
  opportunity = found;
  decision = record { approved = true; reasons = []; checked_at = now };
  execution = paper_result;
}

abbrev after : Scanner Fixed
after = record start {
  positions = Positions.add start.positions (new_position found paper_result);
  opportunities = record { limit = pos 100; records = entry ∷ [] };
  storage =
      enqueue (enqueue start.storage (opportunity entry))
        (position (new_position found paper_result));
}

opened : try_open start moment found ≡ some after
unfolding try_open has_open new_runtime Positions.new_position_book check is_empty collect add_if
    fixed_float default_config sub_time text_beq execute record_open Opportunities.add
    Opportunities.new_opportunity_log
opened = refl

try_open-Opens_example : (after ≡ start) ⊎ Opens start moment found after
try_open-Opens_example = try_open-Opens start moment found after opened

start-IsSafe : IsSafe cfg start
start-IsSafe = Reachable-IsSafe cfg start (started refl)

abbrev first_step :
    (t : Scanner Fixed) × (handle_update start moment long_book ≡ some t) × IsSafe cfg t
first_step = handle_update-IsSafe cfg start moment long_book start-IsSafe

handle_update-IsSafe_example :
    (t : Scanner Fixed) × (handle_update start moment long_book ≡ some t) × IsSafe cfg t
handle_update-IsSafe_example = handle_update-IsSafe cfg start moment long_book start-IsSafe

Reachable-IsSafe_example : IsSafe cfg first_step.0
Reachable-IsSafe_example =
    Reachable-IsSafe cfg first_step.0
      (stepped (started refl) (handled moment long_book first_step.1))

refresh_positions-Treats_example :
    Treats symbol books fundings now after (refresh_positions symbol books fundings now after)
refresh_positions-Treats_example =
    refresh_positions-Treats symbol books fundings now after
      (add-IsBook start.positions (new_position found paper_result) start-IsSafe.sound.book)
