-- ===== src/Exchange/Stub.antt =====
-- internal/exchange/stub.go, and the trading methods of internal/exchange/public_ws.go: connectors
-- that place no orders.
use arb_bot.Prelude.{pos, [], ◌∷◌, some, Text, codes}
use arb_bot.Clock.{Time}
use arb_bot.Float.{Float64, decimal, nought}
use arb_bot.Exchange.{Name, OrderBookSnapshot, OrderResult, unknown, Error, Connector}

abbrev pub live_trading_not_implemented : Error
live_trading_not_implemented = codes "live trading connector is not implemented yet"

module _ {W : Type 0} ⦃f : Float64 W⦄ where
  abbrev unknown_order : Name → Text → Text → OrderResult W
  unknown_order name id message = record {
    exchange = name;
    client_order_id = id;
    external_id = [];
    status = unknown;
    filled_quantity = nought;
    average_price = nought;
    raw_message = message;
  }

  unfoldable pub stub_connector : Name → Connector W
  stub_connector name = record {
    name = name;
    place_order = λ req. (
      unknown_order name req.client_order_id (codes "stub connector"),
      some live_trading_not_implemented,
    );
    get_order =
        λ id. (unknown_order name id (codes "stub connector"), some live_trading_not_implemented);
    balances = ([], some live_trading_not_implemented);
  }

  unfoldable pub public_ws_connector : Name → Connector W
  public_ws_connector name = record {
    name = name;
    place_order = λ req. (
      unknown_order name req.client_order_id
          (codes "public market-data connector does not support trading"),
      some live_trading_not_implemented,
    );
    get_order = λ id. (
      unknown_order name id
          (codes "public market-data connector does not support private order lookup"),
      some live_trading_not_implemented,
    );
    balances = ([], some live_trading_not_implemented);
  }

  unfoldable pub demo_snapshot : Name → Text → W → W → Time → OrderBookSnapshot W
  demo_snapshot name symbol bid ask now = record {
    exchange = name;
    symbol = symbol;
    bids = record { price = bid; quantity = decimal (pos 25) 2 } ∷ [];
    asks = record { price = ask; quantity = decimal (pos 25) 2 } ∷ [];
    updated_at = now;
  }
