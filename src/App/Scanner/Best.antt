-- ===== src/App/Scanner/Best.antt =====
-- The opportunity that the loops of `bestOpportunity` keep is the best over all pairs of exchanges.
use arb_bot.Prelude.{
  List, range, range-Memᴰ, ◌≡◌, ◌≢◌, ◌⊎◌, refl, subst, false, [], ◌∷◌, Option, none, some, arith,
  Option-cases, Bool-cases, inl, inr, ◌==◌, text_eq, text_beq_iff, Text, Map,
}
use mathlib.Core.List.{Memᴰ}
use mathlib.Core.List.Memᴰ.{head, tail}
use arb_bot.Clock.{Time}
use arb_bot.Float.{Float64, IsIeee, lt, ◌≺◌}
use arb_bot.Float.Order.{lt_of_lt_of_le, le_of_lt}
use arb_bot.Exchange.{Name, OrderBookSnapshot}
use arb_bot.Funding
use arb_bot.Strategy.Estimate.{Opportunity, Outcome, accepted, rejected, estimate_funding}
use arb_bot.App.Config.{Config}
use arb_bot.App.Scanner.{
  estimate_input, keep_best, usable, try_short, short_loop, try_long, long_loop, best_opportunity,
  Visit,
}

module _ {W : Type 0} ⦃f : Float64 W⦄ where
  -- An accepted estimate of two different exchanges whose books are fresh and whose funding is known.
  pub record Candidate (cfg : Config W) (symbol : Text) (clock now : Time)
      (fundings : Map (Funding.Snapshot W)) (books : Map (OrderBookSnapshot W)) (o : Opportunity W)
      : Type 0 where
    pub long : Name × OrderBookSnapshot W
    pub short : Name × OrderBookSnapshot W
    pub long_funding : Funding.Snapshot W
    pub short_funding : Funding.Snapshot W
    pub long_listed : Memᴰ long books
    pub short_listed : Memᴰ short books
    pub distinct : long.0 ≢ short.0
    pub long_usable : usable cfg fundings now long ≡ some long_funding
    pub short_usable : usable cfg fundings now short ≡ some short_funding
    pub estimate_eq :
        estimate_funding clock (
          estimate_input cfg symbol now
            (long.0, long.1, long_funding)
            (short.0, short.1, short_funding))
        ≡ accepted o

  -- What is kept has no smaller a net profit than this opportunity, as `<` says.
  abbrev pub Covers : Option (Opportunity W) → Opportunity W → Type 0
  Covers none o = ⊥
  Covers (some b) o = lt b.expected_net_profit_usd o.expected_net_profit_usd ≡ false

  -- What is kept later is the same, or has a larger net profit.
  abbrev Improves : Option (Opportunity W) → Option (Opportunity W) → Type 0
  Improves none later = Unit {0}
  Improves (some b) none = ⊥
  Improves (some b) (some b') = (b' ≡ b) ⊎ (b.expected_net_profit_usd ≺ b'.expected_net_profit_usd)

  Improves-refl : (best : Option (Opportunity W)) → Improves best best
  Improves-refl none = tt
  Improves-refl (some b) = inl refl

  keep_best-Improves :
      (best : Option (Opportunity W)) (r : Outcome W) → Improves best (keep_best best r)
  unfolding keep_best
  keep_best-Improves none r = tt
  keep_best-Improves (some b) (rejected _) = inl refl
  keep_best-Improves (some b) (accepted o) = ground arith

  keep_best-Covers :
      (best : Option (Opportunity W)) (o : Opportunity W) → Covers (keep_best best (accepted o)) o
  unfolding keep_best
  keep_best-Covers none o = ground arith
  keep_best-Covers (some b) o = ground arith

  module _ (laws : IsIeee W) where
    Improves-trans : (a b c : Option (Opportunity W)) → Improves a b → Improves b c → Improves a c
    Improves-trans none b c h k = tt
    Improves-trans (some a) none c h k = elim h [ ]
    Improves-trans (some a) (some b) none h k = elim k [ ]
    Improves-trans (some a) (some b) (some c) (inl e) k = rw e at k
    Improves-trans (some a) (some b) (some c) (inr h) (inl e) = inr (rw e h)
    Improves-trans (some a) (some b) (some c) (inr h) (inr k) =
        inr (lt_of_lt_of_le laws _ _ _ h (le_of_lt laws _ _ k))

    Covers-Improves :
        (a b : Option (Opportunity W)) (o : Opportunity W) → Covers a o → Improves a b → Covers b o
    Covers-Improves none b o h k = elim h [ ]
    Covers-Improves (some a) none o h k = elim k [ ]
    Covers-Improves (some a) (some b) o h (inl e) = rw e h
    Covers-Improves (some a) (some b) o h (inr k) = ground (
      arith,
      lt_of_lt_of_le laws a.expected_net_profit_usd b.expected_net_profit_usd
          o.expected_net_profit_usd k,
    )

    module _ (cfg : Config W) (symbol : Text) (clock now : Time)
        (fundings : Map (Funding.Snapshot W)) where
      try_short-Improves :
          (long : Name × OrderBookSnapshot W × Funding.Snapshot W)
          (short : Name × OrderBookSnapshot W) (best : Option (Opportunity W))
          → Improves best (try_short cfg symbol clock now fundings long short best)
      unfolding try_short usable
      try_short-Improves long short best = elim (Bool-cases (long.0 == short.0)) [
        | inl same ↦ rw same (Improves-refl best)
        | inr other ↦ elim (Option-cases (usable cfg fundings now short)) [
          | inl missing ↦ rw (other, missing) (Improves-refl best)
          | inr (short_funding, e) ↦ rw (other, e) (keep_best-Improves best _)
        ]
      ]

      short_loop-Improves :
          (long : Name × OrderBookSnapshot W × Funding.Snapshot W)
          (shorts : Map (OrderBookSnapshot W)) (best : Option (Opportunity W))
          → Improves best (short_loop cfg symbol clock now fundings long shorts best)
      unfolding short_loop
      short_loop-Improves long [] best = Improves-refl best
      short_loop-Improves long (short ∷ rest) best =
          Improves-trans best _ _ (try_short-Improves long short best)
            (short_loop-Improves long rest _)

      try_long-Improves :
          (shorts : Name → List Name) (books : Map (OrderBookSnapshot W))
          (long : Name × OrderBookSnapshot W) (best : Option (Opportunity W))
          → Improves best (try_long cfg symbol clock now fundings shorts books long best)
      unfolding try_long usable
      try_long-Improves shorts books long best =
          elim (Option-cases (usable cfg fundings now long)) [
            | inl missing ↦ rw (missing, try_long) (Improves-refl best)
            | inr (long_funding, e) ↦
                rw (e, try_long)
                  (short_loop-Improves (long.0, long.1, long_funding) (range (shorts long.0) books)
                    best)
          ]

      long_loop-Improves :
          (shorts : Name → List Name) (books longs : Map (OrderBookSnapshot W))
          (best : Option (Opportunity W))
          → Improves best (long_loop cfg symbol clock now fundings shorts books longs best)
      unfolding long_loop
      long_loop-Improves shorts books [] best = Improves-refl best
      long_loop-Improves shorts books (long ∷ rest) best =
          Improves-trans best _ _ (try_long-Improves shorts books long best)
            (long_loop-Improves shorts books rest _)

      try_short-Covers :
          (long : Name × OrderBookSnapshot W × Funding.Snapshot W)
          (short : Name × OrderBookSnapshot W) (short_funding : Funding.Snapshot W)
          (o : Opportunity W) (best : Option (Opportunity W))
          → long.0 ≢ short.0
          → usable cfg fundings now short ≡ some short_funding
          → estimate_funding clock
              (estimate_input cfg symbol now long (short.0, short.1, short_funding))
            ≡ accepted o
          → Covers (try_short cfg symbol clock now fundings long short best) o
      unfolding try_short usable
      try_short-Covers long short short_funding o best d u e =
          let other : (long.0 == short.0) ≡ false =
            ground (arith, text_beq_iff long.0 short.0, d) in
          rw (other, u, e) (keep_best-Covers best o)

      -- A pair that the loops meet is covered by what they keep.
      short_loop-Covers :
          (long : Name × OrderBookSnapshot W × Funding.Snapshot W)
          (short : Name × OrderBookSnapshot W) (short_funding : Funding.Snapshot W)
          (o : Opportunity W) (shorts : Map (OrderBookSnapshot W)) (best : Option (Opportunity W))
          → long.0 ≢ short.0
          → usable cfg fundings now short ≡ some short_funding
          → estimate_funding clock
              (estimate_input cfg symbol now long (short.0, short.1, short_funding))
            ≡ accepted o
          → Memᴰ short shorts
          → Covers (short_loop cfg symbol clock now fundings long shorts best) o
      unfolding short_loop
      short_loop-Covers long short short_funding o [] best d u e m = elim m [ ]
      short_loop-Covers long short short_funding o (x ∷ rest) best d u e (head m) =
          Covers-Improves _ _ o
            (subst (λ x. Covers (try_short cfg symbol clock now fundings long x best) o) m
              (try_short-Covers long short short_funding o best d u e))
            (short_loop-Improves long rest _)
      short_loop-Covers long short short_funding o (x ∷ rest) best d u e (tail m) =
          short_loop-Covers long short short_funding o rest _ d u e m

      try_long-Covers :
          (shorts : Name → List Name) (books : Map (OrderBookSnapshot W)) (o : Opportunity W)
          (c : Candidate cfg symbol clock now fundings books o) (best : Option (Opportunity W))
          → Covers (try_long cfg symbol clock now fundings shorts books c.long best) o
      unfolding try_long usable
      try_long-Covers shorts books o c best =
          rw (c.long_usable, try_long)
            (short_loop-Covers (c.long.0, c.long.1, c.long_funding) c.short c.short_funding o
              (range (shorts c.long.0) books) best c.distinct c.short_usable c.estimate_eq
              ((range-Memᴰ (shorts c.long.0) books c.short).1 c.short_listed))

      long_loop-Covers :
          (shorts : Name → List Name) (books : Map (OrderBookSnapshot W)) (o : Opportunity W)
          (c : Candidate cfg symbol clock now fundings books o) (longs : Map (OrderBookSnapshot W))
          (best : Option (Opportunity W))
          → Memᴰ c.long longs
          → Covers (long_loop cfg symbol clock now fundings shorts books longs best) o
      unfolding long_loop
      long_loop-Covers shorts books o c [] best m = elim m [ ]
      long_loop-Covers shorts books o c (x ∷ rest) best (head m) =
          Covers-Improves _ _ o
            (subst (λ x. Covers (try_long cfg symbol clock now fundings shorts books x best) o) m
              (try_long-Covers shorts books o c best))
            (long_loop-Improves shorts books rest _)
      long_loop-Covers shorts books o c (x ∷ rest) best (tail m) =
          long_loop-Covers shorts books o c rest _ m

    -- For floats that obey IEEE 754: no candidate has a larger net profit than the opportunity that
    -- `bestOpportunity` returns, as `<` says; and it returns one if there is a candidate. This is so in
    -- whatever orders its loops visit the books.
    pub best_opportunity-Covers :
        (cfg : Config W) (symbol : Text) (clock now : Time) (fundings : Map (Funding.Snapshot W))
        (visit : Visit) (books : Map (OrderBookSnapshot W)) (o : Opportunity W)
        → Candidate cfg symbol clock now fundings books o
        → Covers (best_opportunity cfg symbol clock now fundings visit books) o
    unfolding best_opportunity
    best_opportunity-Covers cfg symbol clock now fundings visit books o c =
        long_loop-Covers cfg symbol clock now fundings visit.shorts books o c
          (range visit.longs books) none ((range-Memᴰ visit.longs books c.long).1 c.long_listed)
