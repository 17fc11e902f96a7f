-- ===== src/Tests/Config.antt =====
-- Examples of the configuration.
use arb_bot.Prelude.{text_beq, ◌≡◌, ◌⊎◌, refl, List, [], ◌∷◌, none, Text, codes}
use arb_bot.Float.Fixed.{Fixed, fixed_float}
use arb_bot.App.Config.Values.{apply_trading_value, apply_risk_value, apply_config_value, Parsers}
use arb_bot.App.Config.Load.{load_config}
use arb_bot.App.Config.Load.Modes.{ModeLine, IsDistinct, load_config-mode, load_config-IsDistinct}

abbrev parsers : Parsers Fixed
parsers = record { parse_float = λ s. none; atoi = λ s. none; parse_int = λ s. none }

abbrev file : List Text
file =
    codes "# comment"
    ∷ codes "trading:"
    ∷ codes "  mode: live"
    ∷ codes "  symbols:"
    ∷ codes "    - SOL/USDT"
    ∷ codes "    - SOL/USDT"
    ∷ codes "risk:"
    ∷ codes "  max_open_positions: 3"
    ∷ []

loaded_mode : (load_config parsers file).0.trading.mode ≡ codes "live"
unfolding load_config text_beq apply_config_value apply_risk_value apply_trading_value
loaded_mode = refl

loaded_symbols : (load_config parsers file).0.trading.symbols ≡ codes "SOL/USDT" ∷ []
unfolding load_config text_beq apply_config_value apply_risk_value
loaded_symbols = refl

load_config-mode_example :
    ((load_config parsers file).0.trading.mode ≡ codes "paper")
    ⊎ ModeLine file (load_config parsers file).0.trading.mode
load_config-mode_example = load_config-mode parsers file

load_config-IsDistinct_example : IsDistinct (load_config parsers file).0.trading.symbols
load_config-IsDistinct_example = load_config-IsDistinct parsers file
