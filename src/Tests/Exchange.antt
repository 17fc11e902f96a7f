-- ===== src/Tests/Exchange.antt =====
-- Examples of symbols and messages.
use arb_bot.Exchange.Levels.{parse_string_levels, trim_levels}
use arb_bot.Prelude.{text_beq, ◌≡◌, ◌≢◌, refl, [], ◌∷◌, none, some, arith, Text, codes}
use arb_bot.Float.Fixed.{Fixed, fixed_float}
use arb_bot.Exchange.{bybit, OrderBookSnapshot}
use arb_bot.Exchange.Symbols.{bybit_symbol, slash_symbol}
use arb_bot.Exchange.Messages.{Decoder, BybitMessage, parse_snapshot}
use arb_bot.Tests.Data.{cents, level, now}

abbrev pub base : Text
base = codes "BTC"

pub base_filled : base ≢ []
base_filled e = ground (arith, e)

-- A pair with another quote comes back without its slash.
other_quote : slash_symbol (bybit_symbol (codes "ETH/BTC")) ≡ codes "ETHBTC"
unfolding slash_symbol bybit_symbol text_beq
other_quote = refl

abbrev pub message : BybitMessage
message = record {
  topic = codes "orderbook.1.BTCUSDT";
  symbol = codes "BTCUSDT";
  body = record {
    bids = (codes "1" ∷ codes "2" ∷ []) ∷ (codes "x" ∷ codes "2" ∷ []) ∷ [];
    asks = (codes "3" ∷ codes "4" ∷ []) ∷ [];
  };
}

abbrev pub decoder : Decoder Fixed
decoder = record {
  bybit_message = λ s. some message;
  okx_message = λ s. none;
  htx_message = λ s. none;
  kucoin_message = λ s. none;
  parse_float = λ s. some (cents 100);
}

abbrev pub read : OrderBookSnapshot Fixed
read = record {
  exchange = bybit;
  symbol = codes "BTC/USDT";
  bids = level 100 100 ∷ level 100 100 ∷ [];
  asks = level 100 100 ∷ [];
  updated_at = now;
}

parsed : parse_snapshot decoder bybit now [] ≡ some read
unfolding parse_snapshot text_beq slash_symbol trim_levels parse_string_levels fixed_float
parsed = refl
