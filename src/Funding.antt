-- ===== src/Funding.antt =====
-- internal/funding/store.go: funding snapshots, and the synthetic ones that are made from order books.
-- `now` stands for `time.Now().UTC()` where the code reads the clock.
pub mod Laws
pub mod Window
use Prim.Native.Nat.{bit_xor}
use arb_bot.Prelude.{
  ℕ, ◌+◌, ◌*◌, ◌%◌, ◌^◌, ◌-◌, List, [], ◌∷◌, none, some, ◌==◌, nat_eq, if◌then◌else◌, ℤ, pos,
  negsuc, sub_ℕ, leb_ℤ, Text, Map, lookup,
}
use arb_bot.Clock.{Time, Duration, hour, is_zero, add_time, truncate}
use arb_bot.Float.{Float64, decimal, nought, eq, ◌⊕◌, ◌⊗◌, ◌⊘◌}
use arb_bot.Exchange.{Name, bybit, okx, htx, kucoin, Level, OrderBookSnapshot}
use arb_bot.Tables
use arb_bot.Tables.{Table}

pub record Snapshot (W : Type 0) : Type 0 where
  pub exchange : Name
  pub symbol : Text
  pub mark_price : W
  pub index_price : W
  pub funding_rate_pct : W
  pub predicted_funding_pct : W
  pub next_funding_time : Time
  pub observed_at : Time

pub record Config (W : Type 0) : Type 0 where
  pub default_rate_pct : W
  pub funding_interval : Duration

pub record Store (W : Type 0) : Type 0 where
  pub snapshots : Table (Snapshot W)
  pub cfg : Config W

unfoldable pub next_funding_window : Time → Time → Duration → Time
next_funding_window clock t interval =
    let now = if is_zero t then clock else t in
    let window_start = truncate now interval in
    if window_start == now then add_time now interval else add_time window_start interval

-- FNV-1a with 32 bits: `hasher.Write` and `hasher.Sum32`.
fnv_loop : ℕ → List ℕ → ℕ
fnv_loop hash [] = hash
fnv_loop hash (byte ∷ rest) = fnv_loop (bit_xor hash byte * 16_777_619 % 2 ^ 32) rest

unfoldable pub fnv32a : Text → ℕ
unfolding fnv_loop
fnv32a = fnv_loop 2_166_136_261

-- `int(hasher.Sum32()%9)-4`
unfoldable pub jitter_steps : Text → ℤ
jitter_steps symbol = sub_ℕ (fnv32a symbol % 9) 4

module _ {W : Type 0} where
  unfoldable pub apply : Store W → Snapshot W → Store W
  apply s n = record s { snapshots = Tables.put n.symbol n.exchange n s.snapshots }

  unfoldable pub snapshot : Store W → Text → Map (Snapshot W)
  snapshot s symbol = Tables.snapshot symbol s.snapshots

  unfoldable pub snapshot_all : Store W → Table (Snapshot W)
  snapshot_all s = Tables.snapshot_all s.snapshots

module _ {W : Type 0} ⦃f : Float64 W⦄ where
  unfoldable pub new_store : Config W → Store W
  new_store cfg = record {
    snapshots = [];
    cfg = record {
      default_rate_pct =
          if eq cfg.default_rate_pct nought then decimal (pos 1) 2 else cfg.default_rate_pct;
      funding_interval =
          if leb_ℤ cfg.funding_interval (pos 0) then pos (8 * hour) else cfg.funding_interval;
    };
  }

  mid_of : List (Level W) → List (Level W) → W
  mid_of (bid ∷ _) (ask ∷ _) = (bid.price ⊕ ask.price) ⊘ decimal (pos 2) 0
  mid_of _ _ = nought

  unfoldable pub midpoint : OrderBookSnapshot W → W
  unfolding mid_of
  midpoint book = mid_of book.bids book.asks

  first_of_sides : List (Level W) → List (Level W) → W
  first_of_sides bids (ask ∷ _) = ask.price
  first_of_sides (bid ∷ _) [] = bid.price
  first_of_sides [] [] = nought

  unfoldable pub first_price : OrderBookSnapshot W → W
  unfolding first_of_sides
  first_price book = first_of_sides book.bids book.asks

  -- A missing key reads as 0.
  base_scale : Name → W
  unfolding lookup
  base_scale name =
      elim (lookup name (
        (bybit, decimal (pos 12) 1)
        ∷ (okx, decimal (negsuc 5) 1)
        ∷ (htx, decimal (pos 8) 1)
        ∷ (kucoin, decimal (negsuc 3) 1)
        ∷ [])) [ none ↦ nought | some v ↦ v ]

  unfoldable pub synthetic_rate : Name → Text → W → W
  unfolding base_scale jitter_steps fnv32a
  synthetic_rate name symbol default_rate =
      let base = base_scale name in
      let scale = if eq base nought then decimal (pos 1) 0 else base in
      let jitter = decimal (jitter_steps symbol) 0 ⊗ default_rate ⊗ decimal (pos 5) 2 in
      default_rate ⊗ scale ⊕ jitter

  unfoldable pub mark_of : OrderBookSnapshot W → W
  unfolding midpoint first_price
  mark_of book = let mark = midpoint book in if eq mark nought then first_price book else mark

  unfoldable pub synthetic_snapshot : Time → OrderBookSnapshot W → Config W → Snapshot W
  unfolding mark_of
  synthetic_snapshot clock book cfg =
      let mark = mark_of book in
      let rate = synthetic_rate book.exchange book.symbol cfg.default_rate_pct in
      record {
        exchange = book.exchange;
        symbol = book.symbol;
        mark_price = mark;
        index_price = mark;
        funding_rate_pct = rate;
        predicted_funding_pct = rate;
        next_funding_time = next_funding_window clock book.updated_at cfg.funding_interval;
        observed_at = book.updated_at;
      }

  unfoldable pub apply_synthetic_from_order_book :
      Time → Store W → OrderBookSnapshot W → Store W × Snapshot W
  apply_synthetic_from_order_book clock s book =
      let snap = synthetic_snapshot clock book s.cfg in (apply s snap, snap)
