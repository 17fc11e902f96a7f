-- ===== src/Exchange.antt =====
-- internal/exchange/types.go: names, order books, orders and the connector interface.
pub mod Stub
pub mod Levels
pub mod Messages
pub mod Symbols
pub mod Subscribe
pub mod Session
pub mod Adapters
use arb_bot.Prelude.{List, Option, Text, codes, ◌≡◌, ◌⊎◌, inl, inr, refl}
use arb_bot.Clock.{Time}

abbrev pub Name : Type 0
Name = Text

abbrev pub bybit : Name
bybit = codes "bybit"

abbrev pub okx : Name
okx = codes "okx"

abbrev pub htx : Name
htx = codes "htx"

abbrev pub kucoin : Name
kucoin = codes "kucoin"

pub record Level (W : Type 0) : Type 0 where
  pub price : W
  pub quantity : W

pub record OrderBookSnapshot (W : Type 0) : Type 0 where
  pub exchange : Name
  pub symbol : Text
  pub bids : List (Level W)
  pub asks : List (Level W)
  pub updated_at : Time

pub data OrderSide : Type 0 where
  buy sell : OrderSide

abbrev pub side_text : OrderSide → Text
side_text buy = codes "buy"
side_text sell = codes "sell"

pub record OrderRequest (W : Type 0) : Type 0 where
  pub client_order_id : Text
  pub symbol : Text
  pub side : OrderSide
  pub price : W
  pub quantity : W
  pub order_type : Text

-- `unset` is the empty string, the status of an `OrderResult` literal that names none.
pub data OrderStatus : Type 0 where
  accepted rejected filled partially_filled canceled unknown unset : OrderStatus

pub record OrderResult (W : Type 0) : Type 0 where
  pub exchange : Name
  pub client_order_id : Text
  pub external_id : Text
  pub status : OrderStatus
  pub filled_quantity : W
  pub average_price : W
  pub raw_message : Text

pub record Balance (W : Type 0) : Type 0 where
  pub asset : Text
  pub free : W
  pub locked : W

-- A Go error, by its message.
abbrev pub Error : Type 0
Error = Text

-- A Go result `(A, error)` of which one is meant.
pub data Fallible (A : Type 0) : Type 0 where
  ok : A → Fallible A
  failed : Error → Fallible A

pub Fallible-cases :
    {A : Type 0} (r : Fallible A) → ((e : Error) × (r ≡ failed e)) ⊎ ((a : A) × (r ≡ ok a))
Fallible-cases (failed e) = inl (e, refl)
Fallible-cases (ok a) = inr (a, refl)

-- The methods of `Connector` but `Start`, which is `start` of `Exchange.Session`. A method returns a
-- value and, where it fails, an error beside it.
pub record Connector (W : Type 0) : Type 0 where
  pub name : Name
  pub place_order : OrderRequest W → OrderResult W × Option Error
  pub get_order : Text → OrderResult W × Option Error
  pub balances : List (Balance W) × Option Error
