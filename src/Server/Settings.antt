-- ===== src/Server/Settings.antt =====
-- main.go: `tokenLimits`, `otpLimits` and `cleanupConfig`.
pub mod Bounds
use tokenzy.Prelude.{Option, none, some}
use tokenzy.Prelude.Int.{ℤ, pos}
use tokenzy.Prelude.Str.{Str, codes}
use tokenzy.Limits.{Limits}
use tokenzy.Token.Limits as TokenLimits
use tokenzy.Otp as Otp
use tokenzy.Cleanup.{Config, default_config}
use tokenzy.Server.Variables.{Variables, env_duration}

abbrev pub env_max_ttl : Str
env_max_ttl = codes "TOKENZY_MAX_TTL"

abbrev pub env_otp_max_ttl : Str
env_otp_max_ttl = codes "TOKENZY_OTP_MAX_TTL"

abbrev pub env_retention_expired : Str
env_retention_expired = codes "TOKENZY_RETENTION_EXPIRED"

abbrev pub env_retention_consumed : Str
env_retention_consumed = codes "TOKENZY_RETENTION_CONSUMED"

abbrev pub env_retention_otp : Str
env_retention_otp = codes "TOKENZY_RETENTION_OTP"

abbrev pub env_retention_delivery : Str
env_retention_delivery = codes "TOKENZY_RETENTION_DELIVERIES"

abbrev pub env_cleanup_interval : Str
env_cleanup_interval = codes "TOKENZY_CLEANUP_INTERVAL"

-- Each is `none` when a variable is refused, which stops the start.
module _ (parse : Str → Option ℤ) (env : Variables) where
  unfoldable pub token_limits : Option Limits
  token_limits = elim (env_duration parse env_max_ttl (pos TokenLimits.default_max_ttl) env) [
    | none ↦ none
    | some max_ttl ↦ some (TokenLimits.new_limits max_ttl)
  ]

  unfoldable pub otp_limits : Option Limits
  otp_limits = elim (env_duration parse env_otp_max_ttl (pos Otp.default_max_ttl) env) [
    | none ↦ none
    | some max_ttl ↦ some (Otp.new_limits max_ttl)
  ]

  unfoldable pub cleanup_config : Option Config
  cleanup_config = elim (env_duration parse env_cleanup_interval default_config.interval env) [
    | none ↦ none
    | some interval ↦
        elim (env_duration parse env_retention_expired default_config.expired_retention env) [
          | none ↦ none
          | some expired ↦
              elim (env_duration parse env_retention_consumed default_config.consumed_retention
                env) [
                  | none ↦ none
                  | some consumed ↦
                      elim (env_duration parse env_retention_otp default_config.otp_retention env) [
                        | none ↦ none
                        | some otp ↦
                            elim (env_duration parse env_retention_delivery
                              default_config.delivery_retention env) [
                                | none ↦ none
                                | some delivery ↦ some (record {
                                  interval = interval;
                                  expired_retention = expired;
                                  consumed_retention = consumed;
                                  otp_retention = otp;
                                  delivery_retention = delivery;
                                })
                              ]
                      ]
                ]
        ]
  ]
