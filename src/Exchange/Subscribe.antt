-- ===== src/Exchange/Subscribe.antt =====
-- internal/exchange/public_ws.go: what a public connector writes to its socket, and where it connects.
-- The socket, the clock and the reply to the HTTP request are arguments.
use arb_bot.Prelude.{
  ℕ, suc, List, [], ◌∷◌, ◌++◌, Option, none, some, ◌==◌, text_eq, if◌then◌else◌, Bool, true, false,
  ℤ, pos, ltb_ℤ, Text, codes, map, print_int,
}
use arb_bot.Clock.{Time, unix_nano}
use arb_bot.Exchange.{Name, bybit, okx, htx, kucoin, Error, Fallible, ok, failed}
use arb_bot.Exchange.Symbols.{bybit_symbol, dash_symbol, market_htx_symbol}

pub record OkxArg : Type 0 where
  pub channel : Text
  pub inst_id : Text

-- The values that the connector passes to `WriteJSON`, with the keys of their maps as fields.
pub data Frame : Type 0 where
  bybit_request : (op : Text) (args : List Text) → Frame
  okx_request : (op : Text) (args : List OkxArg) → Frame
  htx_request : (sub id : Text) → Frame
  kucoin_request : (id kind topic : Text) (private_channel response : Bool) → Frame
  htx_pong : (pong : ℤ) → Frame
  kucoin_pong : (id kind : Text) → Frame

-- For the i-th `WriteJSON` of a subscription: its error, and the clock just before it.
pub record Link : Type 0 where
  pub write_error : ℕ → Option Error
  pub clock : ℕ → Time

-- What was written, and the error that ended it.
pub record Written : Type 0 where
  pub frames : List Frame
  pub error : Option Error

unfoldable pub bybit_topic : Text → Text
bybit_topic symbol = codes "orderbook.1." ++ bybit_symbol symbol

unfoldable pub okx_arg : Text → OkxArg
okx_arg symbol = record { channel = codes "books5"; inst_id = dash_symbol symbol }

unfoldable pub htx_channel : Text → Text
htx_channel symbol = market_htx_symbol symbol ++ codes ".depth.step0"

unfoldable pub kucoin_channel : Text → Text
kucoin_channel symbol = codes "/spotMarket/level2Depth5:" ++ dash_symbol symbol

stamp : Time → Text
stamp now = print_int (unix_nano now)

htx_frame : Text → Time → Frame
unfolding htx_channel stamp
htx_frame symbol now = htx_request (htx_channel symbol) (stamp now)

kucoin_frame : Text → Time → Frame
unfolding kucoin_channel stamp
kucoin_frame symbol now =
    kucoin_request (stamp now) (codes "subscribe") (kucoin_channel symbol) false true

write_one : Link → Frame → Written
write_one link frame = elim (link.write_error 0) [
  | some e ↦ record { frames = []; error = some e }
  | none ↦ record { frames = frame ∷ []; error = none }
]

-- One request for each symbol, up to the first error.
write_each : (Text → Time → Frame) → Link → ℕ → List Text → Written
write_each frame_of link i [] = record { frames = []; error = none }
write_each frame_of link i (symbol ∷ symbols) =
    let rest = write_each frame_of link (suc i) symbols in
    elim (link.write_error i) [
      | some e ↦ record { frames = []; error = some e }
      | none ↦ record rest { frames = frame_of symbol (link.clock i) ∷ rest.frames }
    ]

unsupported : Name → Error
unsupported name = codes "unsupported exchange: " ++ name

unfoldable pub subscribe : Name → Link → List Text → Written
unfolding write_one write_each htx_frame kucoin_frame unsupported bybit_topic okx_arg
subscribe name link symbols =
    if name == bybit
    then write_one link (bybit_request (codes "subscribe") (map bybit_topic symbols))
    else if name == okx
    then write_one link (okx_request (codes "subscribe") (map okx_arg symbols))
    else if name == htx
    then write_each htx_frame link 0 symbols
    else if name == kucoin
    then write_each kucoin_frame link 0 symbols
    else record { frames = []; error = some (unsupported name) }

pub record KucoinControl : Type 0 where
  pub kind : Text
  pub id : Text

-- `json.Unmarshal` into the messages of `handleControl`; a missing key reads as zero.
pub record ControlDecoder : Type 0 where
  pub htx_ping : Text → Option ℤ
  pub kucoin_control : Text → Option KucoinControl

-- The answer that `handleControl` writes to a message that it handles.
unfoldable pub handle_control : ControlDecoder → Name → Text → Option Frame
handle_control dec name payload =
    if name == htx
    then elim (dec.htx_ping payload) [
      | none ↦ none
      | some ping ↦ if ltb_ℤ (pos 0) ping then some (htx_pong ping) else none
    ]
    else if name == kucoin
    then elim (dec.kucoin_control payload) [
      | none ↦ none
      | some msg ↦
          if msg.kind == codes "ping" then some (kucoin_pong msg.id (codes "pong")) else none
    ]
    else none

-- The reply to the request for a KuCoin endpoint, decoded.
pub record Bullet : Type 0 where
  pub token : Text
  pub servers : List Text

abbrev no_endpoint : Error
no_endpoint = codes "kucoin public bullet response missing token or endpoint"

first_endpoint : Text → Text → List Text → Fallible Text
first_endpoint id token [] = failed no_endpoint
first_endpoint id token (server ∷ _) =
    ok (server ++ (codes "?token=" ++ (token ++ (codes "&connectId=" ++ id))))

-- `reply` has the error of the request, of the transport or of decoding.
kucoin_endpoint : Time → Fallible Bullet → Fallible Text
unfolding first_endpoint stamp
kucoin_endpoint now (failed e) = failed e
kucoin_endpoint now (ok reply) =
    if reply.token == []
    then failed no_endpoint
    else first_endpoint (stamp now) reply.token reply.servers

unfoldable pub endpoint : Name → Time → Fallible Bullet → Fallible Text
unfolding kucoin_endpoint unsupported
endpoint name now reply =
    if name == bybit
    then ok (codes "wss://stream.bybit.com/v5/public/spot")
    else if name == okx
    then ok (codes "wss://ws.okx.com:8443/ws/v5/public")
    else if name == htx
    then ok (codes "wss://api.huobi.pro/ws")
    else if name == kucoin
    then kucoin_endpoint now reply
    else failed (unsupported name)
