-- ===== src/App/Scanner/Found.antt =====
-- What `bestOpportunity` returns is an accepted estimate of two of the exchanges.
use arb_bot.Prelude.{
  List, range, range-Memᴰ, ◌≡◌, refl, subst, [], ◌∷◌, Option, none, some, arith, Option-cases,
  Bool-cases, inl, inr, ◌==◌, text_eq, text_beq_iff, Text, Map,
}
use mathlib.Core.List.{Memᴰ}
use mathlib.Core.List.Memᴰ.{head, tail}
use arb_bot.Clock.{Time}
use arb_bot.Float.{Float64}
use arb_bot.Exchange.{Name, OrderBookSnapshot}
use arb_bot.Funding
use arb_bot.Strategy.Estimate.{Opportunity, Outcome, accepted, rejected}
use arb_bot.App.Config.{Config}
use arb_bot.App.Scanner.{
  keep_best, usable, try_short, short_loop, try_long, long_loop, best_opportunity, Visit,
}
use arb_bot.App.Scanner.Best.{Candidate}

module _ {W : Type 0} ⦃f : Float64 W⦄ where
  module _ (cfg : Config W) (symbol : Text) (clock now : Time) (fundings : Map (Funding.Snapshot W))
      (books : Map (OrderBookSnapshot W)) where
    -- An opportunity that is kept is a candidate.
    abbrev Sound : Option (Opportunity W) → Type 0
    Sound none = Unit {0}
    Sound (some o) = Candidate cfg symbol clock now fundings books o

    keep_best-Sound :
        (best : Option (Opportunity W)) (r : Outcome W)
        → Sound best
        → ((o : Opportunity W) → r ≡ accepted o → Candidate cfg symbol clock now fundings books o)
        → Sound (keep_best best r)
    unfolding keep_best
    keep_best-Sound none (rejected _) h k = h
    keep_best-Sound none (accepted o) h k = k o refl
    keep_best-Sound (some b) (rejected _) h k = h
    keep_best-Sound (some b) (accepted o) h k = ground (arith, h, k o refl)

    try_short-Sound :
        (long short : Name × OrderBookSnapshot W) (long_funding : Funding.Snapshot W)
        (best : Option (Opportunity W))
        → Memᴰ long books
        → Memᴰ short books
        → usable cfg fundings now long ≡ some long_funding
        → Sound best
        → Sound (try_short cfg symbol clock now fundings (long.0, long.1, long_funding) short best)
    unfolding try_short usable
    try_short-Sound long short long_funding best m n u h = elim (Bool-cases (long.0 == short.0)) [
      | inl same ↦ rw same h
      | inr other ↦ elim (Option-cases (usable cfg fundings now short)) [
        | inl missing ↦ rw (other, missing) h
        | inr (short_funding, v) ↦
            rw (other, v)
              (keep_best-Sound best _ h λ o e. record {
                long = long;
                short = short;
                long_funding = long_funding;
                short_funding = short_funding;
                long_listed = m;
                short_listed = n;
                distinct = ground (arith, text_beq_iff long.0 short.0, other);
                long_usable = u;
                short_usable = v;
                estimate_eq = e;
              })
      ]
    ]

    short_loop-Sound :
        (long : Name × OrderBookSnapshot W) (long_funding : Funding.Snapshot W)
        (shorts : Map (OrderBookSnapshot W)) (best : Option (Opportunity W))
        → ((x : Name × OrderBookSnapshot W) → Memᴰ x shorts → Memᴰ x books)
        → Memᴰ long books
        → usable cfg fundings now long ≡ some long_funding
        → Sound best
        → Sound
            (short_loop cfg symbol clock now fundings (long.0, long.1, long_funding) shorts best)
    unfolding short_loop
    short_loop-Sound long long_funding [] best sub m u h = h
    short_loop-Sound long long_funding (x ∷ rest) best sub m u h =
        short_loop-Sound long long_funding rest _ (λ y n. sub y (tail n)) m u
          (try_short-Sound long x long_funding best m (sub x (head refl)) u h)

    try_long-Sound :
        (shorts : Name → List Name) (long : Name × OrderBookSnapshot W)
        (best : Option (Opportunity W))
        → Memᴰ long books
        → Sound best
        → Sound (try_long cfg symbol clock now fundings shorts books long best)
    unfolding try_long usable
    try_long-Sound shorts long best m h = elim (Option-cases (usable cfg fundings now long)) [
      | inl missing ↦ rw (missing, try_long) h
      | inr (long_funding, u) ↦
          rw (u, try_long)
            (short_loop-Sound long long_funding (range (shorts long.0) books) best
              (λ y n. (range-Memᴰ (shorts long.0) books y).0 n) m u h)
    ]

    long_loop-Sound :
        (shorts : Name → List Name) (longs : Map (OrderBookSnapshot W))
        (best : Option (Opportunity W))
        → ((x : Name × OrderBookSnapshot W) → Memᴰ x longs → Memᴰ x books)
        → Sound best
        → Sound (long_loop cfg symbol clock now fundings shorts books longs best)
    unfolding long_loop
    long_loop-Sound shorts [] best sub h = h
    long_loop-Sound shorts (x ∷ rest) best sub h =
        long_loop-Sound shorts rest _ (λ y n. sub y (tail n))
          (try_long-Sound shorts x best (sub x (head refl)) h)

  -- The opportunity that `bestOpportunity` returns is the accepted estimate of two different exchanges
  -- of the map, whose books are fresh at the time of the update and whose funding is known.
  pub best_opportunity-Candidate :
      (cfg : Config W) (symbol : Text) (clock now : Time) (fundings : Map (Funding.Snapshot W))
      (visit : Visit) (books : Map (OrderBookSnapshot W)) (o : Opportunity W)
      → best_opportunity cfg symbol clock now fundings visit books ≡ some o
      → Candidate cfg symbol clock now fundings books o
  unfolding best_opportunity
  best_opportunity-Candidate cfg symbol clock now fundings visit books o e =
      subst (Sound cfg symbol clock now fundings books) e (
        long_loop-Sound cfg symbol clock now fundings books visit.shorts (range visit.longs books)
          none (λ x m. (range-Memᴰ visit.longs books x).0 m) tt)
