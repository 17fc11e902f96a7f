-- ===== src/Exchange/Messages/Laws.antt =====
-- Every book that a connector reads is one that the stores and the estimator can rely on.
use arb_bot.Prelude.{
  ◌≡◌, ◌≤◌, refl, List, [], ◌∷◌, Option, none, some, arith, Option-cases, Bool-cases, inl, inr,
  ◌==◌, text_eq, text_beq_iff, length, length-take, All, All-take, subst, Text, codes,
}
use mathlib.Core.Option.{some-injective}
use arb_bot.Clock.{Time}
use arb_bot.Float.{Float64}
use arb_bot.Exchange.{Name, Level, bybit, okx, htx, kucoin, OrderBookSnapshot}
use arb_bot.Exchange.Levels.{
  IsPositive, trim_levels, trim_levels-eq, parse_string_levels-IsPositive,
  parse_float_levels-IsPositive,
}
use arb_bot.Exchange.Messages.{
  Sides, Decoder, HtxMessage, string_book, parse_bybit, okx_book, parse_okx, htx_book, htx_parts,
  parse_htx, parse_kucoin, parse_snapshot, second_of_three, split_dots, kucoin_topic,
}
use arb_bot.Exchange.Symbols.{slash_symbol, replace_all, drop, dash}

module _ {W : Type 0} ⦃f : Float64 W⦄ where
  -- The book is of this exchange and this instant, and has at most 20 levels on a side, all positive.
  pub record IsBookOf (name : Name) (now : Time) (b : OrderBookSnapshot W) : Type 0 where
    pub exchange_eq : b.exchange ≡ name
    pub time_eq : b.updated_at ≡ now
    pub bids_positive : All IsPositive b.bids
    pub asks_positive : All IsPositive b.asks
    pub bids_short : length b.bids ≤ 20
    pub asks_short : length b.asks ≤ 20

  trim_levels-IsPositive :
      (levels : List (Level W)) → All IsPositive levels → All IsPositive (trim_levels levels 20)
  trim_levels-IsPositive levels h = rw (trim_levels-eq levels 20) (All-take IsPositive 20 levels h)

  length-trim_levels : (levels : List (Level W)) → length (trim_levels levels 20) ≤ 20
  length-trim_levels levels = rw (trim_levels-eq levels 20) (ground (arith, length-take 20 levels))

  htx_book-IsBookOf :
      (now : Time) (part : Text) (sides : Sides W) → IsBookOf htx now (htx_book now part sides)
  unfolding htx_book
  htx_book-IsBookOf now part sides = record {
    exchange_eq = refl;
    time_eq = refl;
    bids_positive = trim_levels-IsPositive _ (parse_float_levels-IsPositive sides.bids);
    asks_positive = trim_levels-IsPositive _ (parse_float_levels-IsPositive sides.asks);
    bids_short = length-trim_levels _;
    asks_short = length-trim_levels _;
  }

  module _ (dec : Decoder W) where
    string_book-IsBookOf :
        (name : Name) (symbol : Text) (sides : Sides Text) (now : Time)
        → IsBookOf name now (string_book dec name symbol sides now)
    unfolding string_book
    string_book-IsBookOf name symbol sides now = record {
      exchange_eq = refl;
      time_eq = refl;
      bids_positive =
          trim_levels-IsPositive _ (parse_string_levels-IsPositive dec.parse_float sides.bids);
      asks_positive =
          trim_levels-IsPositive _ (parse_string_levels-IsPositive dec.parse_float sides.asks);
      bids_short = length-trim_levels _;
      asks_short = length-trim_levels _;
    }

    parse_bybit-IsBookOf :
        (now : Time) (payload : Text) (b : OrderBookSnapshot W)
        → parse_bybit dec now payload ≡ some b
        → IsBookOf bybit now b
    unfolding parse_bybit
    parse_bybit-IsBookOf now payload b e = elim (Option-cases (dec.bybit_message payload)) [
      | inl bad ↦ absurd (ground (arith, bad, e))
      | inr (msg, good) ↦
          let same : string_book dec bybit (slash_symbol msg.symbol) msg.body now ≡ b =
            ground (arith, good, e) in
          subst (IsBookOf bybit now) same (string_book-IsBookOf bybit _ _ now)
    ]

    okx_book-IsBookOf :
        (now : Time) (inst_id : Text) (sides : List (Sides Text)) (b : OrderBookSnapshot W)
        → okx_book dec now inst_id sides ≡ some b
        → IsBookOf okx now b
    unfolding okx_book
    okx_book-IsBookOf now inst_id [] b e = absurd cc
    okx_book-IsBookOf now inst_id (side ∷ rest) b e =
        subst (IsBookOf okx now) (some-injective _ _ e) (string_book-IsBookOf okx _ _ now)

    parse_okx-IsBookOf :
        (now : Time) (payload : Text) (b : OrderBookSnapshot W)
        → parse_okx dec now payload ≡ some b
        → IsBookOf okx now b
    unfolding parse_okx
    parse_okx-IsBookOf now payload b e = elim (Option-cases (dec.okx_message payload)) [
      | inl bad ↦ absurd (ground (arith, bad, e))
      | inr (msg, good) ↦ okx_book-IsBookOf now msg.inst_id msg.body b (ground (arith, good, e))
    ]

    htx_parts-IsBookOf :
        (now : Time) (msg : HtxMessage W) (part : Option Text) (b : OrderBookSnapshot W)
        → htx_parts now msg part ≡ some b
        → IsBookOf htx now b
    unfolding htx_parts
    htx_parts-IsBookOf now msg none b e = absurd cc
    htx_parts-IsBookOf now msg (some part) b e =
        subst (IsBookOf htx now) (some-injective _ _ e) (htx_book-IsBookOf now part msg.tick)

    parse_htx-IsBookOf :
        (now : Time) (payload : Text) (b : OrderBookSnapshot W)
        → parse_htx dec now payload ≡ some b
        → IsBookOf htx now b
    unfolding parse_htx
    parse_htx-IsBookOf now payload b e = elim (Option-cases (dec.htx_message payload)) [
      | inl bad ↦ absurd (ground (arith, bad, e))
      | inr (msg, good) ↦
          htx_parts-IsBookOf now msg (second_of_three (split_dots msg.ch)) b
            (ground (arith, good, e))
    ]

    parse_kucoin-IsBookOf :
        (now : Time) (payload : Text) (b : OrderBookSnapshot W)
        → parse_kucoin dec now payload ≡ some b
        → IsBookOf kucoin now b
    unfolding parse_kucoin
    parse_kucoin-IsBookOf now payload b e = elim (Option-cases (dec.kucoin_message payload)) [
      | inl bad ↦ absurd (ground (arith, bad, e))
      | inr (msg, good) ↦
          let same : string_book dec kucoin
                (replace_all (drop (length kucoin_topic) msg.topic) dash (codes "/")) msg.body now
              ≡ b =
            ground (arith, good, e) in
          subst (IsBookOf kucoin now) same (string_book-IsBookOf kucoin _ _ now)
    ]

    -- What a connector reads from a message, whatever the message and the numbers in it are, is a book
    -- of its exchange at this instant, with at most 20 levels on a side, all of them with a positive
    -- price and a positive quantity.
    pub parse_snapshot-IsBookOf :
        (name : Name) (now : Time) (payload : Text) (b : OrderBookSnapshot W)
        → parse_snapshot dec name now payload ≡ some b
        → IsBookOf name now b
    unfolding parse_snapshot
    parse_snapshot-IsBookOf name now payload b e = elim (Bool-cases (name == bybit)) [
      | inl is_bybit ↦
          rw ((text_beq_iff name bybit).0 is_bybit)
            (parse_bybit-IsBookOf now payload b (rw (is_bybit, parse_snapshot) at e))
      | inr n1 ↦ elim (Bool-cases (name == okx)) [
        | inl is_okx ↦
            rw ((text_beq_iff name okx).0 is_okx)
              (parse_okx-IsBookOf now payload b (rw (n1, is_okx, parse_snapshot) at e))
        | inr n2 ↦ elim (Bool-cases (name == htx)) [
          | inl is_htx ↦
              rw ((text_beq_iff name htx).0 is_htx)
                (parse_htx-IsBookOf now payload b (rw (n1, n2, is_htx, parse_snapshot) at e))
          | inr n3 ↦ elim (Bool-cases (name == kucoin)) [
            | inl is_kucoin ↦ rw ((text_beq_iff name kucoin).0 is_kucoin) (
                parse_kucoin-IsBookOf now payload b
                  (rw (n1, n2, n3, is_kucoin, parse_snapshot) at e))
            | inr n4 ↦ absurd (ground (arith, n1, n2, n3, n4, e))
          ]
        ]
      ]
    ]
