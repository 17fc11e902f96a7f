-- ===== src/App/Config/Load/Modes.antt =====
-- What a configuration file can do to the trading mode and to the list of symbols.
use arb_bot.Prelude.{
  ◌≡◌, ◌⊎◌, refl, ◌∙◌, false, ◌||◌, List, [], ◌∷◌, ◌++◌, some, arith, Option-cases, Bool-cases, inl,
  inr, ◌==◌, text_eq, text_beq, text_beq_iff, Text, codes,
}
use mathlib.Core.Option.{some-injective}
use mathlib.Core.List.{Memᴰ}
use mathlib.Core.List.Memᴰ.{head, tail}
use arb_bot.Float.{Float64}
use arb_bot.App.Config.{Config, default_config, TradingConfig}
use arb_bot.App.Config.Values.{Parsers, apply_config_value, apply_trading_value, apply_fee_value}
use arb_bot.App.Config.Load.{
  Line, ignored, item, heading, setting, read_line, Loader, load_line, load_lines, load_config,
  head_line, name_exchange, open_list, add_symbol, contains, append_if_missing,
}

-- A setting leaves the symbols, and the mode as well unless its key is `mode`.
abbrev pub SetsMode : Text → Text → TradingConfig → TradingConfig → Type 0
SetsMode key value before after =
    (after.symbols ≡ before.symbols)
    × ((after.mode ≡ before.mode) ⊎ ((key ≡ codes "mode") × (after.mode ≡ value)))

apply_trading_value-SetsMode :
    (cfg : TradingConfig) (key value : Text)
    → SetsMode key value cfg (apply_trading_value cfg key value)
unfolding apply_trading_value
apply_trading_value-SetsMode cfg key value = ground (arith, text_beq_iff key (codes "mode"))

-- The texts of the list are distinct.
abbrev pub IsDistinct : List Text → Type 0
IsDistinct [] = Unit {0}
IsDistinct (x ∷ xs) = (contains xs x ≡ false) × IsDistinct xs

contains-append :
    (xs : List Text) (v x : Text) → contains (xs ++ v ∷ []) x ≡ (contains xs x || (v == x))
unfolding contains
contains-append [] v x = ground arith
contains-append (y ∷ xs) v x = ground (arith, contains-append xs v x)

append-IsDistinct :
    (xs : List Text) (v : Text) → IsDistinct xs → contains xs v ≡ false → IsDistinct (xs ++ v ∷ [])
unfolding contains
append-IsDistinct [] v d h = (refl, tt)
append-IsDistinct (x ∷ xs) v d h = (
  ground (arith, contains-append xs v x, text_beq_iff v x, text_beq_iff x v, d.0, h),
  append-IsDistinct xs v d.1 (ground (arith, h)),
)

append_if_missing-IsDistinct :
    (xs : List Text) (v : Text) → IsDistinct xs → IsDistinct (append_if_missing xs v)
unfolding append_if_missing
append_if_missing-IsDistinct xs v d = elim (Bool-cases (contains xs v)) [
  | inl here ↦ rw here d
  | inr missing ↦ rw missing (append-IsDistinct xs v d missing)
]

-- A line of the file sets this mode.
pub record ModeLine (lines : List Text) (mode : Text) : Type 0 where
  pub raw : Text
  pub listed : Memᴰ raw lines
  pub reads : read_line raw ≡ setting (codes "mode") mode

later :
    (raw : Text) (lines : List Text) (mode : Text)
    → ModeLine lines mode
    → ModeLine (raw ∷ lines) mode
later raw lines mode h = record { raw = h.raw; listed = tail h.listed; reads = h.reads }

module _ {W : Type 0} ⦃f : Float64 W⦄ (ps : Parsers W) where
  apply_fee_value-trading :
      (cfg cfg' : Config W) (exchange key value : Text)
      → apply_fee_value ps cfg exchange key value ≡ some cfg'
      → cfg'.trading ≡ cfg.trading
  unfolding apply_fee_value
  apply_fee_value-trading cfg cfg' exchange key value e = ground (arith, e)

  apply_config_value-SetsMode :
      (cfg cfg' : Config W) (section exchange key value : Text)
      → apply_config_value ps cfg section exchange key value ≡ some cfg'
      → SetsMode key value cfg.trading cfg'.trading
  unfolding apply_config_value
  apply_config_value-SetsMode cfg cfg' section exchange key value e = ground (
    arith,
    e,
    apply_trading_value-SetsMode cfg.trading key value,
    apply_fee_value-trading cfg cfg' exchange key value,
  )

  head_line-mode :
      (l : Loader W) (key : Text) → (head_line l key).cfg.trading.mode ≡ l.cfg.trading.mode
  unfolding head_line name_exchange open_list
  head_line-mode l key = ground arith

  head_line-IsDistinct :
      (l : Loader W) (key : Text)
      → IsDistinct l.cfg.trading.symbols
      → IsDistinct (head_line l key).cfg.trading.symbols
  unfolding head_line name_exchange open_list
  head_line-IsDistinct l key d = ground arith

  -- One line keeps the symbols distinct, and the mode unless it sets the mode.
  load_line-mode :
      (l l' : Loader W) (line : Line)
      → load_line ps l line ≡ some l'
      → (l'.cfg.trading.mode ≡ l.cfg.trading.mode)
        ⊎ (line ≡ setting (codes "mode") l'.cfg.trading.mode)
  unfolding load_line add_symbol
  load_line-mode l l' ignored e = ground (arith, e)
  load_line-mode l l' (item symbol) e = ground (arith, e)
  load_line-mode l l' (heading key) e = ground (arith, e, head_line-mode l key)
  load_line-mode l l' (setting key value) e =
      elim (Option-cases (apply_config_value ps l.cfg l.section l.exchange key value)) [
        | inl refused ↦ absurd (ground (arith, refused, e))
        | inr (cfg, done) ↦
            let same : cfg ≡ l'.cfg = ground (arith, done, e) in
            elim (apply_config_value-SetsMode l.cfg cfg l.section l.exchange key value done).1 [
              | inl kept ↦ inl (rw (← same) kept)
              | inr (k, v) ↦ inr (rw (k, ← same, v) refl)
            ]
      ]

  load_line-IsDistinct :
      (l l' : Loader W) (line : Line)
      → load_line ps l line ≡ some l'
      → IsDistinct l.cfg.trading.symbols
      → IsDistinct l'.cfg.trading.symbols
  unfolding load_line add_symbol
  load_line-IsDistinct l l' ignored e d = let same : l ≡ l' = ground (arith, e) in rw (← same) d
  load_line-IsDistinct l l' (item symbol) e d =
      elim (Bool-cases (l.list_key == codes "trading.symbols")) [
        | inl listed ↦
            let same : record l { cfg = add_symbol l.cfg symbol } ≡ l' =
              some-injective _ _ (rw (listed, load_line) at e) in
            rw (← same) (append_if_missing-IsDistinct l.cfg.trading.symbols symbol d)
        | inr other ↦
            let same : l ≡ l' = some-injective _ _ (rw (other, load_line) at e) in rw (← same) d
      ]
  load_line-IsDistinct l l' (heading key) e d =
      let same : head_line l key ≡ l' = some-injective _ _ e in
      rw (← same) (head_line-IsDistinct l key d)
  load_line-IsDistinct l l' (setting key value) e d =
      elim (Option-cases (apply_config_value ps l.cfg l.section l.exchange key value)) [
        | inl refused ↦ absurd (ground (arith, refused, e))
        | inr (cfg, done) ↦
            let same : cfg ≡ l'.cfg = ground (arith, done, e) in
            let symbols =
              (apply_config_value-SetsMode l.cfg cfg l.section l.exchange key value done).0 in
            rw (← same, symbols) d
      ]

  load_lines-mode :
      (l : Loader W) (lines : List Text)
      → ((load_lines ps l lines).0.trading.mode ≡ l.cfg.trading.mode)
        ⊎ ModeLine lines (load_lines ps l lines).0.trading.mode
  unfolding load_lines
  load_lines-mode l [] = inl refl
  load_lines-mode l (raw ∷ rest) = elim (Option-cases (load_line ps l (read_line raw))) [
    | inl refused ↦ rw (refused, load_lines) (inl refl)
    | inr (l', e) ↦
        rw (e, load_lines)
          elim (load_lines-mode l' rest) [
            | inr found ↦ inr (later raw rest _ found)
            | inl same ↦ elim (load_line-mode l l' (read_line raw) e) [
              | inl kept ↦ inl (same ∙ kept)
              | inr set ↦ inr (record { raw = raw; listed = head refl; reads = rw same set })
            ]
          ]
  ]

  load_lines-IsDistinct :
      (l : Loader W) (lines : List Text)
      → IsDistinct l.cfg.trading.symbols
      → IsDistinct (load_lines ps l lines).0.trading.symbols
  unfolding load_lines
  load_lines-IsDistinct l [] d = d
  load_lines-IsDistinct l (raw ∷ rest) d = elim (Option-cases (load_line ps l (read_line raw))) [
    | inl refused ↦ rw (refused, load_lines) d
    | inr (l', e) ↦
        rw (e, load_lines)
          (load_lines-IsDistinct l' rest (load_line-IsDistinct l l' (read_line raw) e d))
  ]

  -- The mode of a loaded configuration is `paper` unless a line of the file reads as the setting of
  -- this mode, whether or not the loading ends in an error.
  pub load_config-mode :
      (lines : List Text)
      → ((load_config ps lines).0.trading.mode ≡ codes "paper")
        ⊎ ModeLine lines (load_config ps lines).0.trading.mode
  unfolding load_config default_config
  load_config-mode lines = load_lines-mode _ lines

  -- The symbols of a loaded configuration are distinct, whatever the file lists.
  pub load_config-IsDistinct :
      (lines : List Text) → IsDistinct (load_config ps lines).0.trading.symbols
  unfolding load_config default_config contains text_beq
  load_config-IsDistinct lines = load_lines-IsDistinct _ lines (refl, (refl, tt))
