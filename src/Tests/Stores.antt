-- ===== src/Tests/Stores.antt =====
-- Examples of the stores: books, funding snapshots, opportunities, and the event queue.
use arb_bot.Prelude.{
  ℕ, ◌≡◌, ◌≤◌, ◌<◌, ◌+◌, ◌*◌, ◌/◌, refl, true, [], ◌∷◌, some, take, arith, codes, pos, text_eq,
}
use mathlib.Core.List.{reverse}
use arb_bot.Clock.{hour, second}
use arb_bot.Float.Fixed.{Fixed, fixed_float}
use arb_bot.MarketData
use arb_bot.MarketData.{is_fresh}
use arb_bot.Funding.{next_funding_window}
use arb_bot.Funding.Window.{next_funding_window_lem}
use arb_bot.Execution.{Result, paper_open, paper_order, mode_paper}
use arb_bot.Exchange.{buy, sell}
use arb_bot.State.Opportunities.{OpportunityRecord, new_opportunity_log}
use arb_bot.State.Opportunities.Log.{add_all, add_all-new}
use arb_bot.Storage.{Store, order_book}
use arb_bot.Storage.Queue.{enqueue_all, enqueue_all-events}
use arb_bot.Tests.Data.{cents, now, long_book, short_book, found}

abbrev books : MarketData.Store Fixed
books = MarketData.apply MarketData.new_store long_book

abbrev early : ℕ
early = 5 * second

next_funding_window_lem_example :
    (next_funding_window 0 now (pos (8 * hour)) ≡ (now / (8 * hour) + 1) * (8 * hour))
    × (now < next_funding_window 0 now (pos (8 * hour)))
    × (next_funding_window 0 now (pos (8 * hour)) ≤ now + 8 * hour)
next_funding_window_lem_example =
    next_funding_window_lem 0 now (8 * hour) (ground arith) (omega arith)

abbrev paper_result : Result Fixed
paper_result = record {
  opportunity_id = found.id;
  mode = mode_paper;
  long_order = paper_order found buy;
  short_order = paper_order found sell;
  status = paper_open;
  started_at = now;
  finished_at = now;
}

abbrev entry : ℕ → OpportunityRecord Fixed
entry n = record {
  opportunity = record found { quantity = cents n };
  decision = record { approved = true; reasons = []; checked_at = now };
  execution = paper_result;
}

add_all-new_example :
    add_all (new_opportunity_log (pos 2)) (entry 1 ∷ entry 2 ∷ entry 3 ∷ [])
    ≡ some (record { limit = pos 2; records = take 2 (reverse (entry 1 ∷ entry 2 ∷ entry 3 ∷ [])) })
add_all-new_example = add_all-new 2 (entry 1 ∷ entry 2 ∷ entry 3 ∷ [])

abbrev queue : Store Fixed
queue = record {
  cfg = record {
    addr = codes "redis:6379";
    password = [];
    db = pos 0;
    history_limit = pos 10;
    operation_timeout = pos second;
    enabled = true;
  };
  events = order_book long_book ∷ [];
  capacity = 2;
}

enqueue_all-events_example :
    (enqueue_all queue (order_book short_book ∷ order_book long_book ∷ [])).events
    ≡ take 2 (order_book long_book ∷ order_book short_book ∷ order_book long_book ∷ [])
enqueue_all-events_example =
    enqueue_all-events queue (order_book short_book ∷ order_book long_book ∷ []) refl (omega arith)
