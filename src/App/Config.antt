-- ===== src/App/Config.antt =====
-- internal/app/config.go: the configuration and its default.
pub mod Load
pub mod Values
use arb_bot.Prelude.{◌*◌, Bool, true, false, [], ◌∷◌, List, ℤ, pos, Text, codes, Map}
use arb_bot.Clock.{Duration, millisecond, minute, hour}
use arb_bot.Float.{Float64, decimal, hundred}

pub record AppConfig : Type 0 where
  pub environment : Text
  pub log_level : Text
  pub admin_addr : Text

pub record TradingConfig : Type 0 where
  pub enabled : Bool
  pub mode : Text
  pub symbols : List Text

pub record ExchangeConfig : Type 0 where
  pub enabled : Bool

pub record FeeConfig (W : Type 0) : Type 0 where
  pub maker_pct : W
  pub taker_pct : W

pub record RiskConfig (W : Type 0) : Type 0 where
  pub max_trade_usd : W
  pub max_daily_volume_usd : W
  pub max_daily_loss_usd : W
  pub min_profit_pct : W
  pub min_profit_usd : W
  pub max_slippage_pct : W
  pub max_order_book_age : Duration
  pub stop_after_consecutive_failures : ℤ

pub record StrategyConfig (W : Type 0) : Type 0 where
  pub max_depth_levels : ℤ
  pub min_expected_carry_pct : W
  pub min_expected_carry_usd : W
  pub basis_risk_pct : W
  pub default_funding_rate_pct : W
  pub funding_interval : Duration
  pub min_time_to_funding : Duration
  pub max_hold_time : Duration

pub record ExecutionConfig : Type 0 where
  pub order_type : Text
  pub retry_count : ℤ
  pub order_timeout : Duration
  pub cancel_unfilled_after : Duration
  pub manual_intervention_on_partial_fill : Bool

pub record StorageConfig : Type 0 where
  pub redis_enabled : Bool
  pub redis_addr : Text
  pub redis_password : Text
  pub redis_db : ℤ
  pub redis_history_limit : ℤ
  pub redis_operation_timeout : Duration

pub record Config (W : Type 0) : Type 0 where
  pub app : AppConfig
  pub trading : TradingConfig
  pub exchanges : Map ExchangeConfig
  pub fees : Map (FeeConfig W)
  pub risk : RiskConfig W
  pub strategy : StrategyConfig W
  pub execution : ExecutionConfig
  pub storage : StorageConfig

module _ {W : Type 0} ⦃f : Float64 W⦄ where
  abbrev fee : W → W → FeeConfig W
  fee maker taker = record { maker_pct = maker; taker_pct = taker }

  unfoldable pub default_config : Config W
  default_config = record {
    app = record {
      environment = codes "local";
      log_level = codes "info";
      admin_addr = codes ":8080";
    };
    trading = record {
      enabled = false;
      mode = codes "paper";
      symbols = codes "BTC/USDT" ∷ codes "ETH/USDT" ∷ [];
    };
    exchanges =
        (codes "bybit", record { enabled = true })
        ∷ (codes "okx", record { enabled = true })
        ∷ (codes "htx", record { enabled = true })
        ∷ (codes "kucoin", record { enabled = true })
        ∷ [];
    fees =
        (codes "bybit", fee (decimal (pos 2) 2) (decimal (pos 55) 3))
        ∷ (codes "okx", fee (decimal (pos 2) 2) (decimal (pos 5) 2))
        ∷ (codes "htx", fee (decimal (pos 2) 2) (decimal (pos 6) 2))
        ∷ (codes "kucoin", fee (decimal (pos 2) 2) (decimal (pos 6) 2))
        ∷ [];
    risk = record {
      max_trade_usd = hundred;
      max_daily_volume_usd = decimal (pos 1000) 0;
      max_daily_loss_usd = decimal (pos 50) 0;
      min_profit_pct = decimal (pos 25) 2;
      min_profit_usd = decimal (pos 1) 0;
      max_slippage_pct = decimal (pos 10) 2;
      max_order_book_age = pos (500 * millisecond);
      stop_after_consecutive_failures = pos 3;
    };
    strategy = record {
      max_depth_levels = pos 5;
      min_expected_carry_pct = decimal (pos 5) 2;
      min_expected_carry_usd = decimal (pos 25) 2;
      basis_risk_pct = decimal (pos 3) 2;
      default_funding_rate_pct = decimal (pos 1) 2;
      funding_interval = pos (8 * hour);
      min_time_to_funding = pos (15 * minute);
      max_hold_time = pos (9 * hour);
    };
    execution = record {
      order_type = codes "limit_ioc";
      retry_count = pos 1;
      order_timeout = pos (800 * millisecond);
      cancel_unfilled_after = pos (500 * millisecond);
      manual_intervention_on_partial_fill = true;
    };
    storage = record {
      redis_enabled = true;
      redis_addr = codes "redis:6379";
      redis_password = [];
      redis_db = pos 0;
      redis_history_limit = pos 10_000;
      redis_operation_timeout = pos (500 * millisecond);
    };
  }
