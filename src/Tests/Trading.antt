-- ===== src/Tests/Trading.antt =====
-- Examples of the checks and of the execution.
use arb_bot.Prelude.{
  text_beq, ◌≡◌, ◌↔◌, ◌⊎◌, refl, false, true, [], ◌∷◌, none, some, inr, arith, codes, pos, ◌+◌, ◌*◌,
  lookup,
}
use arb_bot.Clock.{sub_time, minute, second}
use arb_bot.Float.Fixed.{Fixed, fixed_float}
use arb_bot.Float.Fixed.Ieee.{Fixed-IsIeee}
use arb_bot.Exchange.{bybit, okx, buy, sell, Error}
use arb_bot.Exchange.Stub.{stub_connector}
use arb_bot.Risk.{add_if, collect, is_empty, Config, check}
use arb_bot.Risk.Approval.{Clears, check-approved_iff}
use arb_bot.Risk.Limits.{IsLaxer, check_mono}
use arb_bot.Execution.{Engine, Result, executed, failed, execute, mode_live, order_request}
use arb_bot.Execution.Modes.{execute-live_iff}
use arb_bot.Execution.Responses.{execute-arrival, execute-live, reply, live_status}
use arb_bot.Tests.Data.{cents, now, found}

abbrev limits : Config Fixed
limits = record {
  max_trade_usd = cents 10_000;
  min_profit_usd = cents 100;
  min_profit_pct = cents 25;
  min_time_to_funding = pos (15 * minute);
}

abbrev lax_limits : Config Fixed
lax_limits = record {
  max_trade_usd = cents 20_000;
  min_profit_usd = cents 50;
  min_profit_pct = cents 25;
  min_time_to_funding = pos (5 * minute);
}

check-approved_iff_example :
    ((check limits false now found).approved ≡ true) ↔ ((false ≡ false) × Clears limits now found)
check-approved_iff_example = check-approved_iff limits false now found

approved : (check limits false now found).approved ≡ true
unfolding check is_empty collect add_if fixed_float sub_time text_beq
approved = refl

limits-IsLaxer : IsLaxer limits lax_limits
unfolding fixed_float
limits-IsLaxer = record {
  limit = inr (refl, refl);
  profit = refl;
  profit_pct = refl;
  window = ground arith;
}

check_mono_example : (check lax_limits false now found).approved ≡ true
check_mono_example =
    check_mono Fixed-IsIeee limits lax_limits false now found limits-IsLaxer approved

abbrev live_engine : Engine Fixed
live_engine = record {
  mode = mode_live;
  timeout = pos second;
  order_type = codes "limit_ioc";
  connectors = (bybit, stub_connector bybit) ∷ (okx, stub_connector okx) ∷ [];
}

execute-live_iff_example :
    ((err : Error) × (execute live_engine buy now (now + 1) found ≡ failed err)) ↔ (
      (lookup found.long_exchange live_engine.connectors ≡ none)
      ⊎ (lookup found.short_exchange live_engine.connectors ≡ none))
execute-live_iff_example = execute-live_iff live_engine buy now (now + 1) found refl

long_listed : lookup found.long_exchange live_engine.connectors ≡ some (stub_connector bybit)
unfolding lookup text_beq
long_listed = refl

short_listed : lookup found.short_exchange live_engine.connectors ≡ some (stub_connector okx)
unfolding lookup text_beq
short_listed = refl

execute-live_example :
    (r : Result Fixed) × (execute live_engine sell now (now + 1) found ≡ executed r)
    × (r.long_order
        ≡ reply ((stub_connector bybit).place_order (order_request live_engine found buy)))
    × (r.short_order
        ≡ reply ((stub_connector okx).place_order (order_request live_engine found sell)))
    × (r.status
        ≡ live_status
            ((stub_connector bybit).place_order (order_request live_engine found buy)).1
            ((stub_connector okx).place_order (order_request live_engine found sell)).1)
execute-live_example =
    execute-live live_engine sell now (now + 1) found refl long_listed short_listed

execute-arrival_example :
    execute live_engine buy now (now + 1) found ≡ execute live_engine sell now (now + 1) found
execute-arrival_example = execute-arrival live_engine now (now + 1) found
