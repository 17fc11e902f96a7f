-- ===== src/Exchange/Adapters.antt =====
-- `New` of internal/exchange/bybit, okx, htx and kucoin, and `NewPublicWSConnector` of
-- internal/exchange/public_ws.go.
use arb_bot.Prelude.{pos, ◌*◌}
use arb_bot.Clock.{Duration, second}
use arb_bot.Float.{Float64}
use arb_bot.Exchange.{Name, bybit, okx, htx, kucoin, Connector}
use arb_bot.Exchange.Stub.{public_ws_connector}

pub record PublicWsConfig : Type 0 where
  pub name : Name

-- The HTTP client and the dialler are their timeouts.
pub record PublicWsConnector : Type 0 where
  pub name : Name
  pub http_timeout : Duration
  pub handshake_timeout : Duration

unfoldable pub new_public_ws_connector : PublicWsConfig → PublicWsConnector
new_public_ws_connector cfg = record {
  name = cfg.name;
  http_timeout = pos (10 * second);
  handshake_timeout = pos (10 * second);
}

module _ {W : Type 0} ⦃f : Float64 W⦄ where
  -- The connector as a value of the interface.
  abbrev as_connector : PublicWsConnector → Connector W
  as_connector c = public_ws_connector c.name

  unfoldable pub new_bybit : Connector W
  unfolding new_public_ws_connector
  new_bybit = as_connector (new_public_ws_connector (record { name = bybit }))

  unfoldable pub new_okx : Connector W
  unfolding new_public_ws_connector
  new_okx = as_connector (new_public_ws_connector (record { name = okx }))

  unfoldable pub new_htx : Connector W
  unfolding new_public_ws_connector
  new_htx = as_connector (new_public_ws_connector (record { name = htx }))

  unfoldable pub new_kucoin : Connector W
  unfolding new_public_ws_connector
  new_kucoin = as_connector (new_public_ws_connector (record { name = kucoin }))
