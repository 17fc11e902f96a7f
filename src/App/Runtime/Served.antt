-- ===== src/App/Runtime/Served.antt =====
-- What the admin API of a running bot answers.
use mathlib.Core.List.{Memᴰ}
use mathlib.Core.List.Memᴰ.{head, tail}
use arb_bot.Prelude.{
  ◌≡◌, ◌↔◌, Bool, refl, sym, ap, ◌∙◌, subst, true, false, ◌&&◌, List, [], ◌∷◌, Option, none, some,
  arith, Bool-cases, inl, inr, ◌==◌, text_eq, text_beq, text_beq_iff, if◌then◌else◌, Text, codes,
  Map, IsMap, IsFresh, lookup, insert, lookup-insert, lookup-IsFresh,
}
use arb_bot.Float.{Float64}
use arb_bot.Exchange.{Name, bybit, okx, htx, kucoin, OrderBookSnapshot}
use arb_bot.Exchange.Stub.{public_ws_connector}
use arb_bot.Tables.{Table, row}
use arb_bot.Tables.Laws.{snapshot-eq, snapshot_all-eq}
use arb_bot.Funding
use arb_bot.State.Positions.{Position, open_positions}
use arb_bot.State.Positions.Listing.{find, Distinct, open_positions_lem}
use arb_bot.Api.{
  FeeView, Request, Reader, exchanges, funding_items, position_items, status_ok, keys, serve,
}
use arb_bot.App.Config.{Config, FeeConfig}
use arb_bot.App.Scanner.{Scanner, Moment}
use arb_bot.App.Runtime.{
  new_runtime, build_connectors, is_enabled, add_fees, fee_view, server_config,
}
use arb_bot.App.Runtime.Built.{is_one_of, lookup-build_connectors}
use arb_bot.App.Runtime.Invariant.{Reachable-IsSafe}
use arb_bot.App.Runtime.Trace.{Trace, latest, funding_of, Trace-Reachable, Trace-Holds}

Memᴰ-keys :
    {V : Type 0} (name : Text) (m : Map V) {v : V} → lookup name m ≡ some v → Memᴰ name (keys m)
unfolding keys lookup
Memᴰ-keys name [] h = absurd cc
Memᴰ-keys name ((k, u) ∷ m) h = elim (Bool-cases (k == name)) [
  | inl same ↦ head (sym ((text_beq_iff k name).0 same))
  | inr other ↦ tail (Memᴰ-keys name m (rw other at h))
]

lookup-keys :
    {V : Type 0} (name : Text) (m : Map V) → Memᴰ name (keys m) → (v : V) × (lookup name m ≡ some v)
unfolding keys lookup
lookup-keys name [] h = elim h [ ]
lookup-keys name ((k, u) ∷ m) h = elim (Bool-cases (k == name)) [
  | inl same ↦ (u, rw same refl)
  | inr other ↦ elim h [
    | head e ↦ absurd (ground (arith, e, other, text_beq_iff k name))
    | tail later ↦ rw other (lookup-keys name m later)
  ]
]

-- A request by `GET`, with no query.
abbrev pub request : Text → Request
request path = record { method = codes "GET"; path = path; limit = [] }

abbrev pub known : Name → Bool
known name = is_one_of name (bybit ∷ okx ∷ htx ∷ kucoin ∷ [])

taken : {A : Type 0} (b : Bool) (x : A) {y : A} → (if b then some x else none) ≡ some y → b ≡ true
taken true x e = refl
taken false x e = absurd cc

module _ {W : Type 0} ⦃f : Float64 W⦄ where
  view_of : FeeConfig W → FeeView W
  view_of fee = record { maker_pct = fee.maker_pct; taker_pct = fee.taker_pct }

  pub view_option : Option (FeeConfig W) → Option (FeeView W) → Option (FeeView W)
  unfolding view_of
  view_option none o = o
  view_option (some fee) o = some (view_of fee)

  lookup-add_fees :
      (out : Map (FeeView W)) (fees : Map (FeeConfig W)) (name : Text)
      → IsMap fees
      → lookup name (add_fees out fees) ≡ view_option (lookup name fees) (lookup name out)
  unfolding add_fees lookup view_option view_of
  lookup-add_fees out [] name h = refl
  lookup-add_fees out ((k, fee) ∷ fees) name h =
      lookup-add_fees (insert k (view_of fee) out) fees name h.1 ∙ elim (Bool-cases (k == name)) [
        | inl same ↦
            let e = (text_beq_iff k name).0 same in
            let fresh = lookup-IsFresh name fees (subst (λ x. IsFresh x fees) e h.0) in
            rw (fresh, lookup-insert k name (view_of fee) out, same) refl
        | inr other ↦ rw (lookup-insert k name (view_of fee) out, other) refl
      ]

  -- The fees that the API shows are those of the configuration.
  pub lookup-fee_view :
      (fees : Map (FeeConfig W)) (name : Text)
      → IsMap fees
      → lookup name (fee_view fees) ≡ view_option (lookup name fees) none
  unfolding fee_view lookup
  lookup-fee_view fees name h = lookup-add_fees [] fees name h

  -- The replies of the API in a state of the runtime that is reached by these updates.
  pub record IsServed {S : Type 0} (reader : Reader W S) (cfg : Config W)
      (seen : List (Moment × OrderBookSnapshot W)) (s : Scanner W) : Type 0 where
    pub positions : List (Position W)
    pub positions_eq :
        serve reader (server_config cfg s) (request (codes "/positions"))
        ≡ some (record { status = status_ok; body = position_items positions })
    pub once : Distinct positions
    pub listed : (id : Text) → find id positions ≡ lookup id s.positions.held
    pub funding : Table (Funding.Snapshot W)
    pub funding_eq :
        serve reader (server_config cfg s) (request (codes "/funding"))
        ≡ some (record { status = status_ok; body = funding_items funding })
    pub newest :
        (symbol name : Text)
        → lookup name (row symbol funding)
          ≡ funding_of (new_runtime cfg).funding.cfg (latest symbol name seen)
    pub names : List Text
    pub names_eq :
        serve reader (server_config cfg s) (request (codes "/exchanges"))
        ≡ some (record { status = status_ok; body = exchanges names })
    pub enabled :
        (name : Text) → Memᴰ name names ↔ (is_enabled cfg.exchanges name && known name ≡ true)

  Memᴰ-build_connectors :
      (cfg : Config W) (name : Text)
      → Memᴰ name (keys (build_connectors cfg))
        ↔ (is_enabled cfg.exchanges name && known name ≡ true)
  Memᴰ-build_connectors cfg name = (
    (λ k.
        let (c, e) = lookup-keys name (build_connectors cfg) k in
        taken (is_enabled cfg.exchanges name && known name) (public_ws_connector name)
          (sym (lookup-build_connectors cfg name) ∙ e)),
    λ on.
        Memᴰ-keys name (build_connectors cfg) {v = public_ws_connector name}
          (lookup-build_connectors cfg name ∙ rw on refl),
  )

  -- In every run, the API lists each open position once and nothing else, the funding snapshots that the
  -- latest updates give, and exactly the exchanges that are known and enabled.
  pub Trace-IsServed :
      {S : Type 0} (reader : Reader W S) (cfg : Config W)
      (seen : List (Moment × OrderBookSnapshot W)) (s : Scanner W)
      → Trace cfg seen s
      → IsServed reader cfg seen s
  unfolding serve server_config Funding.snapshot Funding.snapshot_all text_beq
  Trace-IsServed reader cfg seen s run =
      let safe = Reachable-IsSafe cfg s (Trace-Reachable cfg seen s run) in
      let (once, listed) = open_positions_lem s.positions safe.sound.book in
      record {
        positions = open_positions s.positions;
        positions_eq = refl;
        once = once;
        listed = listed;
        funding = Funding.snapshot_all s.funding;
        funding_eq = refl;
        newest = λ symbol name.
            ap (λ t. lookup name (row symbol t))
              (snapshot_all-eq s.funding.snapshots safe.funding_filed.table)
            ∙ ap (lookup name)
                (sym (snapshot-eq symbol s.funding.snapshots safe.funding_filed.table))
            ∙ (Trace-Holds cfg seen s symbol name run).funding_eq;
        names = keys (build_connectors cfg);
        names_eq = refl;
        enabled = Memᴰ-build_connectors cfg;
      }
