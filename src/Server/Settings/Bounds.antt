-- ===== src/Server/Settings/Bounds.antt =====
-- What a start can be configured to.
use tokenzy.Prelude.{ℕ, ◌≤◌, ◌<◌, ◌≡◌, refl, subst, false, Option, none, some, arith}
use mathlib.Core.Option
use tokenzy.Prelude.Int.{ℤ, pos, negsuc, leb_ℤ}
use tokenzy.Prelude.Str.{Str}
use tokenzy.Limits.{Limits, ceiling, new_limits}
use tokenzy.Token.Limits as TokenLimits
use tokenzy.Otp as Otp
use tokenzy.Cleanup.{Config, default_config, with_defaults}
use tokenzy.Server.Variables.{Variables, env_duration}
use tokenzy.Server.Settings.{
  env_cleanup_interval, env_retention_expired, env_retention_consumed, env_retention_otp,
  env_retention_delivery, env_max_ttl, env_otp_max_ttl, token_limits, otp_limits, cleanup_config,
}

-- Longer than nothing.
abbrev pub IsPositive : ℤ → Type 0
IsPositive d = leb_ℤ d (pos 0) ≡ false

env_duration-IsPositive :
    (parse : Str → Option ℤ) (name : Str) (default d : ℤ) (env : Variables)
    → IsPositive default
    → env_duration parse name default env ≡ some d
    → IsPositive d
unfolding env_duration
env_duration-IsPositive parse name default d env p h = ground arith

abbrev AllPositive : Config → Type 0
AllPositive c =
    IsPositive c.interval
    × IsPositive c.expired_retention
    × IsPositive c.consumed_retention
    × IsPositive c.otp_retention
    × IsPositive c.delivery_retention

-- The five reads behind an accepted configuration.
cleanup_config-reads :
    (parse : Str → Option ℤ) (env : Variables) (c : Config)
    → cleanup_config parse env ≡ some c
    → (env_duration parse env_cleanup_interval default_config.interval env ≡ some c.interval)
      × (env_duration parse env_retention_expired default_config.expired_retention env
          ≡ some c.expired_retention)
      × (env_duration parse env_retention_consumed default_config.consumed_retention env
          ≡ some c.consumed_retention)
      × (env_duration parse env_retention_otp default_config.otp_retention env
          ≡ some c.otp_retention)
      × (env_duration parse env_retention_delivery default_config.delivery_retention env
          ≡ some c.delivery_retention)
unfolding cleanup_config
cleanup_config-reads parse env c h = ground arith

cleanup_config-IsPositive :
    (parse : Str → Option ℤ) (env : Variables) (c : Config)
    → cleanup_config parse env ≡ some c
    → AllPositive c
cleanup_config-IsPositive parse env c h =
    let (i, e, u, o, d) = cleanup_config-reads parse env c h in
    (
      env_duration-IsPositive parse _ default_config.interval _ env refl i,
      env_duration-IsPositive parse _ default_config.expired_retention _ env refl e,
      env_duration-IsPositive parse _ default_config.consumed_retention _ env refl u,
      env_duration-IsPositive parse _ default_config.otp_retention _ env refl o,
      env_duration-IsPositive parse _ default_config.delivery_retention _ env refl d,
    )

with_defaults-positive : (c : Config) → AllPositive c → with_defaults c ≡ c
unfolding with_defaults
with_defaults-positive c (i, e, u, o, d) = ground arith

new_limits-bounds :
    (d a : ℕ) (configured : ℤ)
    → 0 < d
    → d ≤ a
    → (0 < ceiling a (new_limits (pos d) (pos a) configured))
      × (ceiling a (new_limits (pos d) (pos a) configured) ≤ a)
unfolding ceiling new_limits
new_limits-bounds d a (pos n) h k = (ground arith, ground arith)
new_limits-bounds d a (negsuc n) h k = (ground arith, ground arith)

read_limits-bounds :
    (d a : ℕ) (read : Option ℤ) (l : Limits)
    → 0 < d
    → d ≤ a
    → Option.map (new_limits (pos d) (pos a)) read ≡ some l
    → (0 < ceiling a l) × (ceiling a l ≤ a)
read_limits-bounds d a none l h k e = absurd (cc)
read_limits-bounds d a (some m) l h k e =
    let same : new_limits (pos d) (pos a) m ≡ l = cc in
    subst (λ (q : Limits). (0 < ceiling a q) × (ceiling a q ≤ a)) same (new_limits-bounds d a m h k)

token_limits-bounds :
    (parse : Str → Option ℤ) (env : Variables) (l : Limits)
    → token_limits parse env ≡ some l
    → (0 < TokenLimits.ceiling l) × (TokenLimits.ceiling l ≤ TokenLimits.absolute_max_ttl)
unfolding token_limits TokenLimits.new_limits TokenLimits.ceiling
token_limits-bounds parse env l h =
    read_limits-bounds TokenLimits.default_max_ttl TokenLimits.absolute_max_ttl
      (env_duration parse env_max_ttl (pos TokenLimits.default_max_ttl) env) l (omega arith)
      (omega arith) h

otp_limits-bounds :
    (parse : Str → Option ℤ) (env : Variables) (l : Limits)
    → otp_limits parse env ≡ some l
    → (0 < Otp.ceiling l) × (Otp.ceiling l ≤ Otp.absolute_max_ttl)
unfolding otp_limits Otp.new_limits Otp.ceiling
otp_limits-bounds parse env l h =
    read_limits-bounds Otp.default_max_ttl Otp.absolute_max_ttl
      (env_duration parse env_otp_max_ttl (pos Otp.default_max_ttl) env) l (omega arith)
      (omega arith) h

-- A start that accepts its variables runs within bounds: the cleanup job takes every interval and
-- every retention as it was configured and replaces none by a default, and the ceilings on lifetimes
-- are positive and at most the absolute ones, whatever was asked for.
pub settings-IsBounded :
    (parse : Str → Option ℤ) (env : Variables) (c : Config) (l o : Limits)
    → cleanup_config parse env ≡ some c
    → token_limits parse env ≡ some l
    → otp_limits parse env ≡ some o
    → (with_defaults c ≡ c)
      × (0 < TokenLimits.ceiling l)
      × (TokenLimits.ceiling l ≤ TokenLimits.absolute_max_ttl)
      × (0 < Otp.ceiling o)
      × (Otp.ceiling o ≤ Otp.absolute_max_ttl)
settings-IsBounded parse env c l o h k m = (
  with_defaults-positive c (cleanup_config-IsPositive parse env c h),
  (token_limits-bounds parse env l k).0,
  (token_limits-bounds parse env l k).1,
  (otp_limits-bounds parse env o m).0,
  (otp_limits-bounds parse env o m).1,
)
