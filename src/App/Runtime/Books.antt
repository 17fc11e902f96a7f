-- ===== src/App/Runtime/Books.antt =====
-- From the socket to the store: what the connectors send is what the scanner reads.
use arb_bot.Prelude.{
  ◌≡◌, sym, ◌∙◌, subst, ◌&&◌, List, [], ◌∷◌, some, ◌==◌, text_eq, Text, lookup, All, Bool-cases,
  inl, inr,
}
use mathlib.Core.Option.{some-injective}
use arb_bot.Clock.{Time}
use arb_bot.Float.{Float64}
use arb_bot.Exchange.{Name, OrderBookSnapshot}
use arb_bot.Exchange.Messages.Laws.{IsBookOf}
use arb_bot.MarketData
use arb_bot.MarketData.Laws
use arb_bot.App.Config.{Config}
use arb_bot.App.Scanner.{Moment}
use arb_bot.App.Runtime.Invariant.{Reachable-IsSafe}
use mathlib.Core.List.{Memᴰ}
use mathlib.Core.List.Memᴰ.{head, tail}
use arb_bot.Exchange.Session.{Attempt, Codec, start}
use arb_bot.Exchange.Session.Laws.{IsRead, start-books}
use arb_bot.App.Runtime.Channel.{System, Run, Run-Trace, Run-All}
use arb_bot.App.Runtime.Trace.{latest, book_of, Trace-Reachable, Trace-Holds}

All-Memᴰ {ℓ κ} : {A : Type ℓ} (P : A → Type κ) {a : A} {xs : List A} → All P xs → Memᴰ a xs → P a
All-Memᴰ P h (head e) = subst P (sym e) h.0
All-Memᴰ P h (tail k) = All-Memᴰ P h.1 k

module _ {W : Type 0} ⦃f : Float64 W⦄ where
  -- A book of its own exchange.
  abbrev IsSent : OrderBookSnapshot W → Type 0
  IsSent b = (now : Time) × IsBookOf b.exchange now b

  -- The book is one that some life of a connector sends.
  pub record SentBy (codec : Codec W) (b : OrderBookSnapshot W) : Type 0 where
    pub name : Name
    pub symbols : List Text
    pub attempts : List Attempt
    pub listed : Memᴰ b (start codec name symbols attempts).books

  SentBy-IsSent : (codec : Codec W) (b : OrderBookSnapshot W) → SentBy codec b → IsSent b
  SentBy-IsSent codec b h =
      let (now, good) =
        All-Memᴰ (IsRead codec h.name) (start-books codec h.name h.symbols h.attempts) h.listed in
      (now, subst (λ x. IsBookOf x now b) (sym good.exchange_eq) good)

  All-IsSent :
      (codec : Codec W) (sent : List (OrderBookSnapshot W))
      → All (SentBy codec) sent
      → All IsSent sent
  All-IsSent codec [] h = tt
  All-IsSent codec (b ∷ sent) h = (SentBy-IsSent codec b h.0, All-IsSent codec sent h.1)

  latest-IsSent :
      (symbol name : Text) (seen : List (Moment × OrderBookSnapshot W)) (b : OrderBookSnapshot W)
      → All (λ u. IsSent u.1) seen
      → book_of (latest symbol name seen) ≡ some b
      → (now : Time) × IsBookOf b.exchange now b
  unfolding latest
  latest-IsSent symbol name [] b h e = absurd cc
  latest-IsSent symbol name ((m, first) ∷ seen) b h e =
      elim (Bool-cases (first.symbol == symbol && first.exchange == name)) [
        | inl mine ↦
            let same : first ≡ b = some-injective _ _ (rw mine at e) in
            subst (λ u. (now : Time) × IsBookOf u.exchange now u) same h.0
        | inr other ↦ latest-IsSent symbol name seen b h.1 (rw other at e)
      ]

  -- In every interleaving of the connectors, the scanner and the writer, if each book that is sent is
  -- sent by some connector, whatever the network delivers to it, then each book that the scanner reads
  -- from the store is of the exchange and the symbol it is filed under, and has at most 20 levels on a
  -- side, all of them with a positive price and a positive quantity.
  pub Run-books :
      (codec : Codec W) (cfg : Config W) (sent : List (OrderBookSnapshot W))
      (seen : List (Moment × OrderBookSnapshot W)) (y : System W) (symbol name : Text)
      (b : OrderBookSnapshot W)
      → Run cfg sent seen y
      → All (SentBy codec) sent
      → lookup name (MarketData.snapshot y.scanner.books symbol) ≡ some b
      → (b.symbol ≡ symbol) × ((now : Time) × IsBookOf name now b)
  Run-books codec cfg sent seen y symbol name b run by_connectors e =
      let trace = Run-Trace cfg sent seen y run in
      let safe = Reachable-IsSafe cfg y.scanner (Trace-Reachable cfg seen y.scanner trace) in
      let (symbol_eq, name_eq) =
        Laws.lookup-snapshot-named y.scanner.books symbol name safe.books_filed e in
      let held = Trace-Holds cfg seen y.scanner symbol name trace in
      let (handled, _) = Run-All IsSent cfg sent seen y run (All-IsSent codec sent by_connectors) in
      let (now, good) = latest-IsSent symbol name seen b handled (sym held.book_eq ∙ e) in
      (symbol_eq, (now, subst (λ x. IsBookOf x now b) name_eq good))
