-- ===== src/Tests/Data.antt =====
-- The data of the examples: two exchanges, one symbol, and a runtime with the default configuration.
use arb_bot.Strategy.Ident.{new_opportunity_id}
use arb_bot.Strategy.Depth.{min_time, vwap_for_quantity, sum_quantity, max_float, min_positive}
use arb_bot.Prelude.{wrap64, ℕ, ◌+◌, ◌*◌, [], ◌∷◌, pos, Text, codes, ◌≡◌, refl}
use arb_bot.Clock.{unix_nano, Time, second, hour}
use arb_bot.Float.{decimal}
use arb_bot.Float.Fixed.{Fixed, millionths, fixed_float}
use arb_bot.Exchange.{Level, OrderBookSnapshot, bybit, okx}
use arb_bot.Funding
use arb_bot.Strategy.Estimate.{
  priced, thresholds, fill_prices, target_quantity, with_tops, EstimateInput, Opportunity, accepted,
  estimate_funding,
}

abbrev pub cents : ℕ → Fixed
cents n = decimal (pos n) 2

abbrev pub now : Time
now = 64_000_000_000 * second

abbrev pub symbol : Text
symbol = codes "BTC/USDT"

abbrev pub level : ℕ → ℕ → Level Fixed
level price quantity = record { price = cents price; quantity = cents quantity }

abbrev pub long_book : OrderBookSnapshot Fixed
long_book = record {
  exchange = bybit;
  symbol = symbol;
  bids = level 9_990 50 ∷ [];
  asks = level 10_000 50 ∷ level 10_010 60 ∷ [];
  updated_at = now;
}

abbrev pub short_book : OrderBookSnapshot Fixed
short_book = record {
  exchange = okx;
  symbol = symbol;
  bids = level 10_020 40 ∷ level 10_000 80 ∷ [];
  asks = level 10_030 50 ∷ [];
  updated_at = now;
}

abbrev pub long_funding : Funding.Snapshot Fixed
long_funding = record {
  exchange = bybit;
  symbol = symbol;
  mark_price = cents 10_000;
  index_price = cents 10_000;
  funding_rate_pct = cents 0;
  predicted_funding_pct = cents 0;
  next_funding_time = now + 1 * hour;
  observed_at = now;
}

abbrev pub short_funding : Funding.Snapshot Fixed
short_funding = record {
  exchange = okx;
  symbol = symbol;
  mark_price = cents 10_025;
  index_price = cents 10_025;
  funding_rate_pct = cents 200;
  predicted_funding_pct = cents 200;
  next_funding_time = now + 2 * hour;
  observed_at = now;
}

abbrev pub input : EstimateInput Fixed
input = record {
  symbol = symbol;
  long_book = long_book;
  short_book = short_book;
  long_funding = long_funding;
  short_funding = short_funding;
  long_fee_pct = cents 5;
  short_fee_pct = cents 5;
  max_notional = cents 10_000;
  max_depth_levels = pos 5;
  basis_risk_pct = cents 3;
  min_expected_carry_usd = cents 25;
  min_expected_carry_pct = cents 5;
  detected_at = now;
}

-- The accepted estimate of this input.
abbrev pub found : Opportunity Fixed
found = record {
  id = codes "BTCUSDT-bybit-okx-1864403200000000000";
  symbol = symbol;
  long_exchange = bybit;
  short_exchange = okx;
  quantity = millionths (pos 998_003);
  long_entry_price = millionths (pos 100_049_899);
  short_entry_price = millionths (pos 100_080_160);
  expected_carry_usd = millionths (pos 1_996_006);
  entry_cost_usd = millionths (pos 99_865);
  exit_cost_usd = millionths (pos 99_865);
  basis_risk_buffer_usd = millionths (pos 29_964);
  expected_net_profit_usd = millionths (pos 1_766_312);
  expected_net_profit_pct = millionths (pos 1_768_400);
  net_funding_rate_pct = millionths (pos 2_000_000);
  detected_at = now;
  valid_until = now + 1 * hour;
  target_funding_time = now + 1 * hour;
}

pub estimate : estimate_funding now input ≡ accepted found
unfolding estimate_funding with_tops fixed_float target_quantity min_positive max_float sum_quantity
    fill_prices vwap_for_quantity thresholds priced new_opportunity_id min_time unix_nano wrap64
estimate = refl
