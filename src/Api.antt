-- ===== src/Api.antt =====
-- internal/api/server.go: the handlers of the admin API. A request is its method, its path and the
-- parameter `limit` of its query; a reply is its status and the value that is encoded as JSON. No handler
-- changes a store.
pub mod History
use arb_bot.Prelude.{
  ℕ, Bool, ◌||◌, List, [], ◌∷◌, Option, none, some, ◌==◌, text_eq, if◌then◌else◌, ℤ, pos, leb_ℤ,
  ltb_ℤ, Text, codes, Map,
}
use arb_bot.Float.{Float64}
use arb_bot.Exchange.{Name, Connector, OrderBookSnapshot, Error, Fallible, ok, failed}
use arb_bot.MarketData
use arb_bot.Funding
use arb_bot.Tables.{Table}
use arb_bot.State.Opportunities
use arb_bot.State.Opportunities.{OpportunityLog, OpportunityRecord}
use arb_bot.State.Positions.{Position, PositionBook, Summary, open_positions, summary}
use arb_bot.Storage
use arb_bot.Storage.Server.{Client, Decoder, recent_positions}

pub record FeeView (W : Type 0) : Type 0 where
  pub maker_pct : W
  pub taker_pct : W

pub record ServerConfig (W : Type 0) : Type 0 where
  pub addr : Text
  pub trading_mode : Text
  pub connectors : Map (Connector W)
  pub books : MarketData.Store W
  pub funding : Funding.Store W
  pub opportunities : OpportunityLog W
  pub positions : PositionBook W
  pub storage : Storage.Store W
  pub fees : Map (FeeView W)

pub record Request : Type 0 where
  pub method : Text
  pub path : Text
  pub limit : Text

-- The values that the handlers encode.
pub data Body (W : Type 0) : Type 0 where
  health : (status mode : Text) → Body W
  exchanges : List Text → Body W
  fee_items : Map (FeeView W) → Body W
  symbol_items : List Text → Body W
  funding_items : Table (Funding.Snapshot W) → Body W
  opportunity_items : List (OpportunityRecord W) → Body W
  position_items : List (Position W) → Body W
  error : Error → Body W
  pnl : Summary W → Body W
  note : Text → Body W

pub record Reply (W : Type 0) : Type 0 where
  pub status : ℕ
  pub body : Body W

-- `for k := range m { out = append(out, k) }`
unfoldable pub keys : {V : Type 0} → Map V → List Text
keys [] = []
keys ((k, v) ∷ m) = k ∷ keys m

abbrev pub status_ok : ℕ
status_ok = 200

abbrev pub status_service_unavailable : ℕ
status_service_unavailable = 503

-- `parse_int` is `strconv.ParseInt(·, 10, 64)`.
unfoldable pub limit_from_request : (Text → Option ℤ) → Text → ℤ → ℤ
limit_from_request parse_int raw fallback = if raw == [] then fallback else elim (parse_int raw) [
  | none ↦ fallback
  | some limit ↦
      if leb_ℤ limit (pos 0) then fallback else if ltb_ℤ (pos 1000) limit then pos 1000 else limit
]

module _ {W : Type 0} where
  abbrev found : Body W → Option (Reply W)
  found body = some (record { status = status_ok; body = body })

  history_reply : Fallible (List (Position W)) → Reply W
  history_reply (failed e) = record { status = status_service_unavailable; body = error e }
  history_reply (ok items) = record { status = status_ok; body = position_items items }

-- What the handler of the history reads: the client, the state of its server, and the decoding.
pub record Reader (W S : Type 0) : Type 0 where
  pub client : Client S
  pub server : S
  pub decoder : Decoder W
  pub parse_int : Text → Option ℤ

module _ {W S : Type 0} ⦃f : Float64 W⦄ (reader : Reader W S) (cfg : ServerConfig W) where
  history_of : Text → Reply W
  unfolding history_reply
  history_of raw = history_reply (
      recent_positions reader.client reader.decoder cfg.storage.cfg reader.server
        (limit_from_request reader.parse_int raw (pos 100)))

  -- The reply for a path; `none` is a path without a handler.
  get : Text → Text → Option (Reply W)
  unfolding history_of keys
  get path raw =
      if path == codes "/health"
      then found (health (codes "ok") cfg.trading_mode)
      else if path == codes "/exchanges"
      then found (exchanges (keys cfg.connectors))
      else if path == codes "/fees"
      then found (fee_items cfg.fees)
      else if path == codes "/symbols"
      then found (symbol_items (keys (MarketData.snapshot_all cfg.books)))
      else if path == codes "/funding"
      then found (funding_items (Funding.snapshot_all cfg.funding))
      else if path == codes "/opportunities"
      then found (opportunity_items (Opportunities.list cfg.opportunities))
      else if path == codes "/positions"
      then found (position_items (open_positions cfg.positions))
      else if path == codes "/positions/history"
      then some (history_of raw)
      else if path == codes "/pnl"
      then found (pnl (summary cfg.positions))
      else if path == codes "/metrics/latency"
      then found (
          note (
            codes
              "latency metrics are tracked in-process; detailed histograms are not yet implemented"))
      else none

  -- A pattern with `GET` also takes `HEAD`. Other requests are answered by the multiplexer: `none`.
  unfoldable pub serve : Request → Option (Reply W)
  unfolding get
  serve req =
      if req.method == codes "GET" || req.method == codes "HEAD"
      then get req.path req.limit
      else none
