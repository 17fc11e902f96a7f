-- ===== src/Execution.antt =====
-- internal/execution/engine.go: paper execution, and the two orders of a live one. `started` and
-- `finished` stand for the two readings of the clock, and `first` for the side whose response
-- arrives first.
pub mod Modes
pub mod Responses
use arb_bot.Prelude.{
  List, [], ◌∷◌, ◌++◌, Option, none, some, ◌==◌, text_eq, if◌then◌else◌, Text, codes, Map, lookup,
}
use arb_bot.Clock.{Time, Duration, zero_time}
use arb_bot.Float.{Float64, nought}
use arb_bot.Exchange.{
  Name, OrderSide, buy, sell, side_text, OrderRequest, OrderResult, filled, unset, Error, Connector,
}
use arb_bot.Strategy.Estimate.{Opportunity}

abbrev pub mode_live : Text
mode_live = codes "live"

abbrev pub mode_paper : Text
mode_paper = codes "paper"

pub record Config : Type 0 where
  pub mode : Text
  pub timeout : Duration
  pub order_type : Text

pub record Engine (W : Type 0) : Type 0 where
  pub mode : Text
  pub timeout : Duration
  pub order_type : Text
  pub connectors : Map (Connector W)

pub data Status : Type 0 where
  paper_open submitted needs_reconcile live_open : Status

pub record Result (W : Type 0) : Type 0 where
  pub opportunity_id : Text
  pub mode : Text
  pub long_order : OrderResult W
  pub short_order : OrderResult W
  pub status : Status
  pub started_at : Time
  pub finished_at : Time

-- `result, nil` or `Result{}, err`.
pub data Outcome (W : Type 0) : Type 0 where
  executed : Result W → Outcome W
  failed : Error → Outcome W

pub record OrderResponse (W : Type 0) : Type 0 where
  pub side : OrderSide
  pub result : OrderResult W
  pub err : Option Error

abbrev pub new_engine : {W : Type 0} → Config → Map (Connector W) → Engine W
new_engine cfg connectors = record {
  mode = cfg.mode;
  timeout = cfg.timeout;
  order_type = cfg.order_type;
  connectors = connectors;
}

settle_status : Status → Status
settle_status submitted = live_open
settle_status s = s

arrival {ℓ} : {A : Type ℓ} → OrderSide → A → A → List A
arrival buy long short = long ∷ short ∷ []
arrival sell long short = short ∷ long ∷ []

module _ {W : Type 0} where
  abbrev pub entry_price : Opportunity W → OrderSide → W
  entry_price o buy = o.long_entry_price
  entry_price o sell = o.short_entry_price

  abbrev pub leg_exchange : Opportunity W → OrderSide → Name
  leg_exchange o buy = o.long_exchange
  leg_exchange o sell = o.short_exchange

  abbrev client_order_id : Opportunity W → OrderSide → Text
  client_order_id o side = o.id ++ (codes "-" ++ side_text side)

  unfoldable pub order_request : Engine W → Opportunity W → OrderSide → OrderRequest W
  order_request e o side = record {
    client_order_id = client_order_id o side;
    symbol = o.symbol;
    side = side;
    price = entry_price o side;
    quantity = o.quantity;
    order_type = e.order_type;
  }

  unfoldable pub paper_order : Opportunity W → OrderSide → OrderResult W
  paper_order o side = record {
    exchange = leg_exchange o side;
    client_order_id = client_order_id o side;
    external_id = [];
    status = filled;
    filled_quantity = o.quantity;
    average_price = entry_price o side;
    raw_message = codes "paper execution";
  }

  -- The body of the loop over the responses.
  take_result : Result W → OrderSide → OrderResult W → Result W
  take_result r buy o = record r { long_order = o }
  take_result r sell o = record r { short_order = o }

  unfoldable pub handle_response : Result W → OrderResponse W → Result W
  unfolding take_result
  handle_response r response = elim response.err [
    | some _ ↦ record r { status = needs_reconcile }
    | none ↦ take_result r response.side response.result
  ]

  unfoldable pub handle_responses : Result W → List (OrderResponse W) → Result W
  unfolding handle_response
  handle_responses r [] = r
  handle_responses r (response ∷ rest) = handle_responses (handle_response r response) rest

  unfoldable pub settle : Time → Result W → Result W
  unfolding settle_status
  settle finished r = record r { finished_at = finished; status = settle_status r.status }

  response_of : Engine W → Opportunity W → OrderSide → Connector W → OrderResponse W
  unfolding order_request
  response_of e o side connector =
      let (result, err) = connector.place_order (order_request e o side) in
      record { side = side; result = result; err = err }

module _ {W : Type 0} ⦃f : Float64 W⦄ where
  abbrev pub no_order : OrderResult W
  no_order = record {
    exchange = [];
    client_order_id = [];
    external_id = [];
    status = unset;
    filled_quantity = nought;
    average_price = nought;
    raw_message = [];
  }

  abbrev blank : Engine W → Opportunity W → Time → Result W
  blank e o started = record {
    opportunity_id = o.id;
    mode = e.mode;
    long_order = no_order;
    short_order = no_order;
    status = submitted;
    started_at = started;
    finished_at = zero_time;
  }

  unfoldable pub place_both :
      Engine W → OrderSide → Time → Time → Opportunity W → Connector W → Connector W → Result W
  unfolding response_of arrival handle_responses settle
  place_both e first started finished o long short = settle finished (
      handle_responses (blank e o started)
        (arrival first (response_of e o buy long) (response_of e o sell short)))

  unfoldable pub execute : Engine W → OrderSide → Time → Time → Opportunity W → Outcome W
  execute e first started finished o =
      let paper : Result W = record {
        opportunity_id = o.id;
        mode = e.mode;
        long_order = paper_order o buy;
        short_order = paper_order o sell;
        status = paper_open;
        started_at = started;
        finished_at = finished;
      } in
      let live : Outcome W = elim (lookup o.long_exchange e.connectors) [
        | none ↦ failed (codes "missing long connector: " ++ o.long_exchange)
        | some long ↦ elim (lookup o.short_exchange e.connectors) [
          | none ↦ failed (codes "missing short connector: " ++ o.short_exchange)
          | some short ↦ executed (place_both e first started finished o long short)
        ]
      ] in
      if e.mode == mode_live then live else executed paper
