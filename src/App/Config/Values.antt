-- ===== src/App/Config/Values.antt =====
-- internal/app/config.go: `applyConfigValue` and the functions it calls. `none` is an error, before
-- which nothing is changed. The conversions of `strconv` are arguments.
use arb_bot.Prelude.{
  ◌∷◌, ◌+◌, ◌&&◌, leb, Bool, ◌||◌, Option, none, some, ◌==◌, text_eq, if◌then◌else◌, ℤ, [], Text,
  codes, lookup, insert, ◌>>=◌,
}
use arb_bot.Clock.{millisecond, minute, times}
use arb_bot.Float.{Float64, nought}
use arb_bot.App.Config.{
  AppConfig, TradingConfig, FeeConfig, RiskConfig, StrategyConfig, ExecutionConfig, StorageConfig,
  Config,
}

-- `strconv.ParseFloat(·, 64)`, `strconv.Atoi` and `strconv.ParseInt(·, 10, 64)`.
pub record Parsers (W : Type 0) : Type 0 where
  pub parse_float : Text → Option W
  pub atoi : Text → Option ℤ
  pub parse_int : Text → Option ℤ

unfoldable pub parse_bool : Text → Bool
parse_bool value = value == codes "true" || (value == codes "yes" || value == codes "1")

apply_app_value : AppConfig → Text → Text → AppConfig
apply_app_value cfg key value =
    if key == codes "environment"
    then record cfg { environment = value }
    else if key == codes "log_level"
    then record cfg { log_level = value }
    else if key == codes "admin_addr"
    then record cfg { admin_addr = value }
    else cfg

unfoldable pub apply_trading_value : TradingConfig → Text → Text → TradingConfig
unfolding parse_bool
apply_trading_value cfg key value =
    if key == codes "enabled"
    then record cfg { enabled = parse_bool value }
    else if key == codes "mode"
    then record cfg { mode = value }
    else cfg

module _ {W : Type 0} where
  apply_exchange_value : Config W → Text → Text → Text → Config W
  unfolding parse_bool
  apply_exchange_value cfg exchange key value =
      if exchange == []
      then cfg
      else if key == codes "enabled"
      then record cfg {
        exchanges = insert exchange (record { enabled = parse_bool value }) cfg.exchanges;
      }
      else cfg

module _ {W : Type 0} ⦃f : Float64 W⦄ (ps : Parsers W) where
  -- The target is the record with the parsed value in it.
  abbrev parse_float_into : {A : Type 0} → Text → (W → A) → Option A
  parse_float_into value target = ps.parse_float value >>= (λ parsed. some (target parsed))

  abbrev parse_int_into : {A : Type 0} → Text → (ℤ → A) → Option A
  parse_int_into value target = ps.atoi value >>= (λ parsed. some (target parsed))

  unfoldable pub apply_risk_value : RiskConfig W → Text → Text → Option (RiskConfig W)
  apply_risk_value cfg key value =
      if key == codes "max_trade_usd"
      then parse_float_into value (λ x. record cfg { max_trade_usd = x })
      else if key == codes "max_daily_volume_usd"
      then parse_float_into value (λ x. record cfg { max_daily_volume_usd = x })
      else if key == codes "max_daily_loss_usd"
      then parse_float_into value (λ x. record cfg { max_daily_loss_usd = x })
      else if key == codes "min_profit_pct"
      then parse_float_into value (λ x. record cfg { min_profit_pct = x })
      else if key == codes "min_profit_usd"
      then parse_float_into value (λ x. record cfg { min_profit_usd = x })
      else if key == codes "max_slippage_pct"
      then parse_float_into value (λ x. record cfg { max_slippage_pct = x })
      else if key == codes "max_orderbook_age_ms"
      then ps.atoi value >>= (λ ms. some (record cfg { max_order_book_age = times ms millisecond }))
      else if key == codes "stop_after_consecutive_failures"
      then parse_int_into value (λ n. record cfg { stop_after_consecutive_failures = n })
      else some cfg

  unfoldable pub apply_strategy_value : StrategyConfig W → Text → Text → Option (StrategyConfig W)
  apply_strategy_value cfg key value =
      if key == codes "max_depth_levels"
      then parse_int_into value (λ n. record cfg { max_depth_levels = n })
      else if key == codes "min_expected_carry_pct"
      then parse_float_into value (λ x. record cfg { min_expected_carry_pct = x })
      else if key == codes "min_expected_carry_usd"
      then parse_float_into value (λ x. record cfg { min_expected_carry_usd = x })
      else if key == codes "basis_risk_pct"
      then parse_float_into value (λ x. record cfg { basis_risk_pct = x })
      else if key == codes "default_funding_rate_pct"
      then parse_float_into value (λ x. record cfg { default_funding_rate_pct = x })
      else if key == codes "funding_interval_minutes"
      then ps.atoi value >>= (λ n. some (record cfg { funding_interval = times n minute }))
      else if key == codes "min_time_to_funding_minutes"
      then ps.atoi value >>= (λ n. some (record cfg { min_time_to_funding = times n minute }))
      else if key == codes "max_hold_time_minutes"
      then ps.atoi value >>= (λ n. some (record cfg { max_hold_time = times n minute }))
      else some cfg

  unfoldable pub apply_execution_value : ExecutionConfig → Text → Text → Option ExecutionConfig
  unfolding parse_bool
  apply_execution_value cfg key value =
      if key == codes "order_type"
      then some (record cfg { order_type = value })
      else if key == codes "retry_count"
      then parse_int_into value (λ n. record cfg { retry_count = n })
      else if key == codes "order_timeout_ms"
      then ps.atoi value >>= (λ ms. some (record cfg { order_timeout = times ms millisecond }))
      else if key == codes "cancel_unfilled_after_ms"
      then ps.atoi value
        >>= (λ ms. some (record cfg { cancel_unfilled_after = times ms millisecond }))
      else if key == codes "manual_intervention_on_partial_fill"
      then some (record cfg { manual_intervention_on_partial_fill = parse_bool value })
      else some cfg

  unfoldable pub apply_storage_value : StorageConfig → Text → Text → Option StorageConfig
  unfolding parse_bool
  apply_storage_value cfg key value =
      if key == codes "redis_enabled"
      then some (record cfg { redis_enabled = parse_bool value })
      else if key == codes "redis_addr"
      then some (record cfg { redis_addr = value })
      else if key == codes "redis_password"
      then some (record cfg { redis_password = value })
      else if key == codes "redis_db"
      then parse_int_into value (λ n. record cfg { redis_db = n })
      else if key == codes "redis_history_limit"
      then ps.parse_int value >>= (λ n. some (record cfg { redis_history_limit = n }))
      else if key == codes "redis_operation_timeout_ms"
      then ps.atoi value
        >>= (λ ms. some (record cfg { redis_operation_timeout = times ms millisecond }))
      else some cfg

  -- `cfg.Fees[exchange]`, where a missing key reads as the zero value.
  abbrev fee_of : Config W → Text → FeeConfig W
  fee_of cfg exchange = elim (lookup exchange cfg.fees) [
    | none ↦ record { maker_pct = nought; taker_pct = nought }
    | some fee ↦ fee
  ]

  unfoldable pub apply_fee_value : Config W → Text → Text → Text → Option (Config W)
  apply_fee_value cfg exchange key value =
      let fee = fee_of cfg exchange in
      let store = λ (x : FeeConfig W). some (record cfg { fees = insert exchange x cfg.fees }) in
      if exchange == []
      then some cfg
      else if key == codes "maker_pct"
      then parse_float_into value (λ x. record fee { maker_pct = x }) >>= store
      else if key == codes "taker_pct"
      then parse_float_into value (λ x. record fee { taker_pct = x }) >>= store
      else store fee

  unfoldable pub apply_config_value : Config W → Text → Text → Text → Text → Option (Config W)
  unfolding apply_app_value apply_exchange_value
  apply_config_value cfg section exchange key value =
      if section == codes "app"
      then some (record cfg { app = apply_app_value cfg.app key value })
      else if section == codes "trading"
      then some (record cfg { trading = apply_trading_value cfg.trading key value })
      else if section == codes "exchanges"
      then some (apply_exchange_value cfg exchange key value)
      else if section == codes "fees"
      then apply_fee_value cfg exchange key value
      else if section == codes "risk"
      then apply_risk_value cfg.risk key value >>= (λ x. some (record cfg { risk = x }))
      else if section == codes "strategy"
      then apply_strategy_value cfg.strategy key value >>= (λ x. some (record cfg { strategy = x }))
      else if section == codes "execution"
      then apply_execution_value cfg.execution key value
        >>= (λ x. some (record cfg { execution = x }))
      else if section == codes "storage"
      then apply_storage_value cfg.storage key value >>= (λ x. some (record cfg { storage = x }))
      else some cfg

-- `strings.ToLower` on ASCII.
to_lower : Text → Text
to_lower [] = []
to_lower (c ∷ cs) = (if leb 65 c && leb c 90 then c + 32 else c) ∷ to_lower cs

pub data LogLevel : Type 0 where
  level_debug level_info level_warn level_error : LogLevel

module _ {W : Type 0} where
  unfoldable pub log_level : Config W → LogLevel
  unfolding to_lower
  log_level cfg =
      let name = to_lower cfg.app.log_level in
      if name == codes "debug"
      then level_debug
      else if name == codes "warn"
      then level_warn
      else if name == codes "error"
      then level_error
      else level_info
