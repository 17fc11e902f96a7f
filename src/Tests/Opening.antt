-- ===== src/Tests/Opening.antt =====
-- An example of an update that opens a position.
use arb_bot.Prelude.{
  range, ◌≡◌, refl, Bool, List, ◌∷◌, pos, true, false, [], arith, none, some, Option, Text, codes,
  lookup, insert, text_beq, wrap64,
}
use arb_bot.Clock.{sub_time, saturate, unix_nano, truncate}
use arb_bot.Float.Fixed.{Fixed, fixed_float}
use arb_bot.Tables
use arb_bot.MarketData
use arb_bot.MarketData.{is_fresh}
use arb_bot.Funding
use arb_bot.Funding.{
  apply_synthetic_from_order_book, synthetic_snapshot, mark_of, synthetic_rate, next_funding_window,
  midpoint, first_price, jitter_steps, fnv32a,
}
use arb_bot.Strategy.Depth.{min_positive, max_float, sum_quantity, vwap_for_quantity, min_time}
use arb_bot.Strategy.Ident.{new_opportunity_id}
use arb_bot.Strategy.Estimate.{
  estimate_funding, with_tops, target_quantity, fill_prices, thresholds, priced, depth_of,
  estimate_from,
}
use arb_bot.Risk.{check, collect, add_if, is_empty}
use arb_bot.Execution.{Result, submitted, no_order, execute, paper_order}
use arb_bot.State.Positions
use arb_bot.State.Positions.{Position, has_open, open_positions_by_symbol, new_position_book}
use arb_bot.State.Opportunities
use arb_bot.State.Opportunities.{OpportunityRecord, new_opportunity_log}
use arb_bot.Storage
use arb_bot.Storage.{Event, order_book, opportunity, position}
use arb_bot.App.Config.{Config, default_config}
use arb_bot.App.Scanner.{
  Scanner, best_opportunity, keep_best, usable, estimate_input, taker_fee_pct,
}
use arb_bot.App.Scanner.Refresh.{
  refresh_positions, apply_refreshed, refresh_position, exits, decide, unrealized,
}
use arb_bot.App.Scanner.Update.{
  new_position, record_open, try_open, open_best, on_order_book_update,
}
use arb_bot.App.Runtime.{
  build_connectors, is_enabled, new_runtime, store_update, handle_update, started,
}
use arb_bot.App.Runtime.Invariant.{IsSafe, Reachable-IsSafe, store_update-IsSafe}
use arb_bot.App.Runtime.Opened.{Opened, handle_update-Opened}
use arb_bot.Tests.Data.{cents, long_book, short_book, found}
use arb_bot.Tests.Runtime.{cfg, moment}

abbrev pub high_cfg : Config Fixed
high_cfg = record cfg { strategy = record cfg.strategy { default_funding_rate_pct = cents 200 } }

-- Stands for no result below.
abbrev blank : Result Fixed
blank = record {
  opportunity_id = [];
  mode = [];
  long_order = no_order;
  short_order = no_order;
  status = submitted;
  started_at = 0;
  finished_at = 0;
}

abbrev pub one_book : Scanner Fixed
one_book = store_update (new_runtime high_cfg) moment short_book

abbrev pub is_some : {A : Type 0} → Option A → Bool
is_some none = false
is_some (some a) = true

abbrev pub get : {A : Type 0} → A → Option A → A
get a none = a
get a (some b) = b

pub some-get : {A : Type 0} (a : A) (o : Option A) → is_some o ≡ true → o ≡ some (get a o)
some-get a none h = absurd (ground arith)
some-get a (some b) h = refl

one_book-IsSafe : IsSafe high_cfg one_book
one_book-IsSafe =
    store_update-IsSafe high_cfg (new_runtime high_cfg) moment short_book
      (Reachable-IsSafe high_cfg (new_runtime high_cfg) (started refl))

abbrev pub two_books : Scanner Fixed
two_books = get one_book (handle_update one_book moment long_book)

abbrev id : Text
id = codes "BTCUSDT-okx-bybit-1864403200000000000"

abbrev opened : Position Fixed
opened = get (new_position found blank) (lookup id two_books.positions.held)

abbrev queue : List (Event Fixed)
queue = two_books.storage.events

abbrev position_of : List (Event Fixed) → Position Fixed
position_of [] = new_position found blank
position_of (order_book b ∷ es) = position_of es
position_of (opportunity r ∷ es) = position_of es
position_of (position p ∷ es) = p

abbrev pub queued : Position Fixed
queued = position_of queue

abbrev blank_record : OpportunityRecord Fixed
blank_record = record {
  opportunity = found;
  decision = record { approved = false; reasons = []; checked_at = 0 };
  execution = blank;
}

abbrev first_record : List (OpportunityRecord Fixed) → OpportunityRecord Fixed
first_record [] = blank_record
first_record (r ∷ rs) = r

abbrev pub logged : OpportunityRecord Fixed
logged = first_record two_books.opportunities.records

abbrev pub events : List (Event Fixed)
events = order_book short_book ∷ order_book long_book ∷ opportunity logged ∷ position queued ∷ []

-- What the two updates compute.
pub record Computed : Type 0 where
  pub begun_eq : handle_update (new_runtime high_cfg) moment short_book ≡ some one_book
  pub ran : is_some (handle_update one_book moment long_book) ≡ true
  pub there : is_some (lookup id two_books.positions.held) ≡ true
  pub queue_eq : two_books.storage.events ≡ events
  pub limit : two_books.storage.cfg.history_limit ≡ pos 10_000
  pub on : two_books.storage.cfg.enabled ≡ true

pub computed : Computed
unfolding handle_update store_update on_order_book_update open_best try_open record_open
    refresh_positions apply_refreshed refresh_position exits decide unrealized new_runtime
    build_connectors is_enabled MarketData.apply MarketData.snapshot MarketData.new_store
    Funding.new_store Funding.apply Funding.snapshot apply_synthetic_from_order_book
    synthetic_snapshot mark_of synthetic_rate next_funding_window truncate Tables.put
    Tables.snapshot Tables.row check collect add_if is_empty execute paper_order new_position
    Positions.add Positions.update Positions.close has_open open_positions_by_symbol
    new_position_book Opportunities.add new_opportunity_log Storage.new_store Storage.enqueue
    best_opportunity is_fresh sub_time keep_best usable saturate estimate_funding estimate_input
    with_tops fixed_float target_quantity min_positive default_config max_float sum_quantity
    fill_prices vwap_for_quantity thresholds priced taker_fee_pct lookup insert text_beq
    new_opportunity_id min_time unix_nano wrap64 midpoint first_price jitter_steps fnv32a depth_of
    estimate_from range
computed = record {
  begun_eq = refl;
  ran = refl;
  there = refl;
  queue_eq = refl;
  limit = refl;
  on = refl;
}

new : lookup id one_book.positions.held ≡ none
unfolding store_update new_runtime new_position_book lookup
new = refl

handle_update-Opened_example :
    Opened (store_update one_book moment long_book) moment long_book id opened
handle_update-Opened_example =
    handle_update-Opened high_cfg one_book two_books moment long_book id opened one_book-IsSafe
      (some-get one_book (handle_update one_book moment long_book) computed.ran) new
      (some-get (new_position found blank) (lookup id two_books.positions.held) computed.there)
