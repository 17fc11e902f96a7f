-- ===== src/Exchange/Messages/Answers.antt =====
-- What a connector subscribes to comes back under the symbol of the configuration.
use arb_bot.Prelude.{
  ℕ, ◌≤◌, ◌≡◌, ◌≢◌, refl, ap, true, List, [], ◌∷◌, ◌++◌, some, arith, nat_eq, text_eq, text_beq,
  length, All, Text, codes,
}
use mathlib.Core.List.{append_assoc}
use arb_bot.Clock.{Time}
use arb_bot.Float.{Float64}
use arb_bot.Exchange.{Name, bybit, okx, htx, kucoin, OrderBookSnapshot}
use arb_bot.Exchange.Symbols.{
  replace_all, to_upper, to_lower, drop, dash, bybit_symbol, dash_symbol, market_htx_symbol,
  slash_symbol,
}
use arb_bot.Exchange.Symbols.Roundtrip.{
  IsPlain, replace_all-slash, slash_symbol-append, slash_symbol-bybit_symbol,
  replace_all-dash_symbol,
}
use arb_bot.Exchange.Messages.{
  Sides, Decoder, has_prefix, contains, split_dots, second_of_three, string_book, parse_bybit,
  okx_book, parse_okx, htx_book, htx_parts, parse_htx, parse_kucoin, parse_snapshot,
}
use arb_bot.Exchange.Subscribe.{bybit_topic, okx_arg, htx_channel, kucoin_channel}

-- A byte that may stand in a base currency.
pub record IsBase (c : ℕ) : Type 0 where
  pub plain : IsPlain c
  pub not_dot : c ≢ 46

All-IsPlain : (base : Text) → All IsBase base → All IsPlain base
All-IsPlain [] h = tt
All-IsPlain (c ∷ cs) h = (h.0.plain, All-IsPlain cs h.1)

contains-append :
    (xs ys part : Text)
    → 1 ≤ length part
    → contains ys part ≡ true
    → contains (xs ++ ys) part ≡ true
unfolding contains
contains-append [] ys part n h = h
contains-append (x ∷ xs) ys part n h = ground (arith, contains-append xs ys part n h)

-- Lower case and back.
to_upper-to_lower :
    (base rest : Text) → All IsBase base → to_upper (to_lower base ++ rest) ≡ base ++ to_upper rest
unfolding to_upper to_lower
to_upper-to_lower [] rest h = refl
to_upper-to_lower (c ∷ cs) rest h = ground (arith, h.0.plain.capital, to_upper-to_lower cs rest h.1)

to_lower-append : (xs ys : Text) → to_lower (xs ++ ys) ≡ to_lower xs ++ to_lower ys
unfolding to_lower
to_lower-append [] ys = refl
to_lower-append (x ∷ xs) ys = rw (to_lower-append xs ys) refl

-- No small or capital letter is a dot.
split_dots-to_lower :
    (base rest : Text)
    → All IsBase base
    → split_dots (to_lower base ++ rest)
      ≡ (to_lower base ++ (split_dots rest).0, (split_dots rest).1)
unfolding split_dots to_lower
split_dots-to_lower [] rest h = refl
split_dots-to_lower (c ∷ cs) rest h =
    rw (split_dots-to_lower cs rest h.1) (ground (arith, h.0.not_dot))

abbrev pair : Text → Text
pair base = base ++ codes "/USDT"

abbrev small : Text → Text
small base = to_lower base ++ codes "usdt"

htx_channel-eq :
    (base : Text)
    → All IsBase base
    → htx_channel (pair base) ≡ codes "market." ++ (to_lower base ++ codes "usdt.depth.step0")
unfolding htx_channel market_htx_symbol replace_all to_lower
htx_channel-eq base h =
    rw
      (
        replace_all-slash base (codes "/USDT") [] (All-IsPlain base h),
        to_lower-append base (codes "USDT"),
      )
      (rw (append_assoc (to_lower base) (codes "usdt") (codes ".depth.step0")) refl)

suffix-contains : contains (codes "usdt.depth.step0") (codes ".depth.") ≡ true
unfolding contains has_prefix text_beq
suffix-contains = refl

htx_channel-contains :
    (base : Text) → All IsBase base → contains (htx_channel (pair base)) (codes ".depth.") ≡ true
unfolding contains has_prefix
htx_channel-contains base h = rw (htx_channel-eq base h) (
    contains-append (codes "market.") _ (codes ".depth.") (omega arith) (
      contains-append (to_lower base) (codes "usdt.depth.step0") (codes ".depth.") (omega arith)
        suffix-contains))

htx_channel-second :
    (base : Text)
    → All IsBase base
    → second_of_three (split_dots (htx_channel (pair base))) ≡ some (small base)
unfolding split_dots second_of_three
htx_channel-second base h = rw (htx_channel-eq base h) (
    ap (λ parts. second_of_three (codes "market", parts.0 ∷ parts.1))
      (split_dots-to_lower base (codes "usdt.depth.step0") h))

small-symbol :
    (base : Text) → base ≢ [] → All IsBase base → slash_symbol (to_upper (small base)) ≡ pair base
unfolding to_upper
small-symbol base n h =
    rw (to_upper-to_lower base (codes "usdt") h) (slash_symbol-append base n (All-IsPlain base h))

pair-no_dash : (base : Text) → All IsBase base → All (λ c. c ≢ dash) (pair base)
pair-no_dash [] h = (
  λ e. omega (arith, e),
  (
    λ e. omega (arith, e),
    (λ e. omega (arith, e), (λ e. omega (arith, e), (λ e. omega (arith, e), tt))),
  ),
)
pair-no_dash (c ∷ cs) h = (h.0.plain.not_dash, pair-no_dash cs h.1)

module _ {W : Type 0} ⦃f : Float64 W⦄ (dec : Decoder W) where
  -- The payload is a book message on the channel that this exchange was asked for.
  pub data IsAnswer (symbol payload : Text) : Name → Type 0 where
    bybit_answer :
        (body : Sides Text)
        → dec.bybit_message payload
          ≡ some (record { topic = bybit_topic symbol; symbol = bybit_symbol symbol; body = body })
        → IsAnswer symbol payload bybit
    okx_answer :
        (side : Sides Text) (sides : List (Sides Text))
        → dec.okx_message payload
          ≡ some (record {
            channel = (okx_arg symbol).channel;
            inst_id = (okx_arg symbol).inst_id;
            body = side ∷ sides;
          })
        → IsAnswer symbol payload okx
    htx_answer :
        (tick : Sides W)
        → dec.htx_message payload ≡ some (record { ch = htx_channel symbol; tick = tick })
        → IsAnswer symbol payload htx
    kucoin_answer :
        (body : Sides Text)
        → dec.kucoin_message payload
          ≡ some (record { kind = codes "message"; topic = kucoin_channel symbol; body = body })
        → IsAnswer symbol payload kucoin

  abbrev pub Gives : Name → Time → Text → Text → Type 0
  Gives name now payload symbol =
      (b : OrderBookSnapshot W) × (parse_snapshot dec name now payload ≡ some b)
      × (b.exchange ≡ name)
      × (b.symbol ≡ symbol)

  -- For a pair whose base is not empty, in capital letters or digits with no separator and no dot, and
  -- whose quote is USDT: a book message on the channel that a connector asks for is read, on each of the
  -- four exchanges, as a book of that exchange under the symbol of the configuration.
  pub IsAnswer-Gives :
      (base : Text) (name : Name) (now : Time) (payload : Text)
      → base ≢ []
      → All IsBase base
      → IsAnswer (pair base) payload name
      → Gives name now payload (pair base)
  unfolding parse_snapshot text_beq parse_bybit parse_okx parse_htx parse_kucoin string_book
      htx_book okx_book htx_parts has_prefix bybit_topic okx_arg kucoin_channel drop
  IsAnswer-Gives base name now payload n h (bybit_answer body e) = (
    string_book dec bybit (slash_symbol (bybit_symbol (pair base))) body now,
    rw (e, parse_bybit) refl,
    refl,
    slash_symbol-bybit_symbol base n (All-IsPlain base h),
  )
  IsAnswer-Gives base name now payload n h (okx_answer side sides e) = (
    string_book dec okx (replace_all (dash_symbol (pair base)) dash (codes "/")) side now,
    rw (e, parse_okx) refl,
    refl,
    replace_all-dash_symbol (pair base) (pair-no_dash base h),
  )
  IsAnswer-Gives base name now payload n h (htx_answer tick e) = (
    htx_book now (small base) tick,
    rw (e, parse_htx) (rw (htx_channel-contains base h, htx_channel-second base h) refl),
    refl,
    small-symbol base n h,
  )
  IsAnswer-Gives base name now payload n h (kucoin_answer body e) = (
    string_book dec kucoin (replace_all (dash_symbol (pair base)) dash (codes "/")) body now,
    rw (e, parse_kucoin) refl,
    refl,
    replace_all-dash_symbol (pair base) (pair-no_dash base h),
  )
