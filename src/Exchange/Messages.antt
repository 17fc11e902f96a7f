-- ===== src/Exchange/Messages.antt =====
-- internal/exchange/public_ws.go: `parseSnapshot` and the four parsers. `json.Unmarshal` into the
-- message of an exchange is an argument, with `none` for an error; so is `strconv.ParseFloat`.
pub mod Laws
pub mod Answers
use arb_bot.Prelude.{
  Bool, true, false, ◌||◌, not, List, [], ◌∷◌, Option, none, some, ◌==◌, nat_eq, text_eq,
  if◌then◌else◌, leb, length, take, Text, codes, ◌++◌,
}
use arb_bot.Clock.{Time}
use arb_bot.Float.{Float64}
use arb_bot.Exchange.{Name, bybit, okx, htx, kucoin, OrderBookSnapshot}
use arb_bot.Exchange.Levels.{trim_levels, parse_string_levels, parse_float_levels}
use arb_bot.Exchange.Symbols.{replace_all, to_upper, drop, dash, slash_symbol}

-- The rows of both sides; `body` stands for `data`; that of OKX is the list of these.
pub record Sides (A : Type 0) : Type 0 where
  pub bids : List (List A)
  pub asks : List (List A)

pub record BybitMessage : Type 0 where
  pub topic : Text
  pub symbol : Text
  pub body : Sides Text

pub record OkxMessage : Type 0 where
  pub channel : Text
  pub inst_id : Text
  pub body : List (Sides Text)

pub record HtxMessage (W : Type 0) : Type 0 where
  pub ch : Text
  pub tick : Sides W

pub record KucoinMessage : Type 0 where
  pub kind : Text
  pub topic : Text
  pub body : Sides Text

-- `json.Unmarshal` for each kind of message, and `strconv.ParseFloat(·, 64)`.
pub record Decoder (W : Type 0) : Type 0 where
  pub bybit_message : Text → Option BybitMessage
  pub okx_message : Text → Option OkxMessage
  pub htx_message : Text → Option (HtxMessage W)
  pub kucoin_message : Text → Option KucoinMessage
  pub parse_float : Text → Option W

-- `strings.HasPrefix(s, prefix)`.
unfoldable pub has_prefix : Text → Text → Bool
has_prefix s prefix = take (length prefix) s == prefix

-- `strings.Contains(s, part)` for a part that is not empty.
contains : Text → Text → Bool
unfolding has_prefix
contains [] part = false
contains (c ∷ cs) part = has_prefix (c ∷ cs) part || contains cs part

-- `strings.Split(s, ".")`, the first part and the others.
split_dots : Text → Text × List Text
split_dots [] = ([], [])
split_dots (c ∷ cs) =
    let (part, parts) = split_dots cs in if c == 46 then ([], part ∷ parts) else (c ∷ part, parts)

-- `parts[1]` where there are three parts or more.
second_of_three : Text × List Text → Option Text
second_of_three (_, second ∷ _ ∷ _) = some second
second_of_three _ = none

abbrev kucoin_topic : Text
kucoin_topic = codes "/spotMarket/level2Depth5:"

module _ {W : Type 0} ⦃f : Float64 W⦄ where
  htx_book : Time → Text → Sides W → OrderBookSnapshot W
  htx_book now part sides = record {
    exchange = htx;
    symbol = slash_symbol (to_upper part);
    bids = trim_levels (parse_float_levels sides.bids) 20;
    asks = trim_levels (parse_float_levels sides.asks) 20;
    updated_at = now;
  }

  htx_parts : Time → HtxMessage W → Option Text → Option (OrderBookSnapshot W)
  unfolding htx_book
  htx_parts now msg none = none
  htx_parts now msg (some part) = some (htx_book now part msg.tick)

module _ {W : Type 0} ⦃f : Float64 W⦄ (dec : Decoder W) where
  string_book : Name → Text → Sides Text → Time → OrderBookSnapshot W
  string_book name symbol sides now = record {
    exchange = name;
    symbol = symbol;
    bids = trim_levels (parse_string_levels dec.parse_float sides.bids) 20;
    asks = trim_levels (parse_string_levels dec.parse_float sides.asks) 20;
    updated_at = now;
  }

  parse_bybit : Time → Text → Option (OrderBookSnapshot W)
  unfolding string_book
  parse_bybit now payload = elim (dec.bybit_message payload) [
    | none ↦ none
    | some msg ↦
        if has_prefix msg.topic (codes "orderbook.")
        then some (string_book bybit (slash_symbol msg.symbol) msg.body now)
        else none
  ]

  okx_book : Time → Text → List (Sides Text) → Option (OrderBookSnapshot W)
  unfolding string_book
  okx_book now inst_id [] = none
  okx_book now inst_id (sides ∷ _) =
      some (string_book okx (replace_all inst_id dash (codes "/")) sides now)

  parse_okx : Time → Text → Option (OrderBookSnapshot W)
  unfolding okx_book
  parse_okx now payload = elim (dec.okx_message payload) [
    | none ↦ none
    | some msg ↦ if msg.channel == codes "books5" then okx_book now msg.inst_id msg.body else none
  ]

  parse_htx : Time → Text → Option (OrderBookSnapshot W)
  unfolding htx_parts contains split_dots second_of_three
  parse_htx now payload = elim (dec.htx_message payload) [
    | none ↦ none
    | some msg ↦
        if contains msg.ch (codes ".depth.")
        then htx_parts now msg (second_of_three (split_dots msg.ch))
        else none
  ]

  parse_kucoin : Time → Text → Option (OrderBookSnapshot W)
  unfolding string_book
  parse_kucoin now payload = elim (dec.kucoin_message payload) [
    | none ↦ none
    | some msg ↦
        if not (msg.kind == codes "message") || not (has_prefix msg.topic kucoin_topic)
        then none
        else some (
            string_book kucoin (replace_all (drop (length kucoin_topic) msg.topic) dash (codes "/"))
              msg.body now)
  ]

  unfoldable pub parse_snapshot : Name → Time → Text → Option (OrderBookSnapshot W)
  unfolding parse_bybit parse_okx parse_htx parse_kucoin
  parse_snapshot name now payload =
      if name == bybit
      then parse_bybit now payload
      else if name == okx
      then parse_okx now payload
      else if name == htx
      then parse_htx now payload
      else if name == kucoin
      then parse_kucoin now payload
      else none
