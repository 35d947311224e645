-- ===== src/Cleanup/Safe.antt =====
-- A sweep is hygiene only: it changes no answer.
use tokenzy.Prelude.{ℕ, ◌/◌, ◌≤◌, ◌≡◌, refl, ◌∙◌, Bool, true, false, arith, []}
use tokenzy.Prelude.Int.{ℤ}
use tokenzy.Prelude.Str.{Str}
use tokenzy.Prelude.Table.{select, select-delete_limit}
use tokenzy.Ttl.{second}
use tokenzy.Model.{WebhookDelivery, pending}
use tokenzy.Db.{Database}
use tokenzy.Db.Tokens.{consume_token, delete_expired_tokens, delete_settled_tokens}
use tokenzy.Db.Tokens
use tokenzy.Db.Otps
use tokenzy.Db.Tokens.Sweep.{consume_token-after_sweep}
use tokenzy.Db.Otps.{OtpRequest, validate_otp, delete_dead_otps}
use tokenzy.Db.Otps.Sweep.{validate_otp-after_sweep}
use tokenzy.Db.Webhooks.{is_old, delete_old_deliveries}
use tokenzy.Cleanup.{
  Config, with_defaults, sweep, drain, horizon, batch_size, max_batches_per_sweep, expired_batch,
  settled_batch, otp_batch, delivery_batch,
}
use tokenzy.Cleanup.Drain.{drain_loop-keeps}

-- Which request comes next is of no interest here.
abbrev no_request : OtpRequest
no_request = record { otp_type = []; identifier = []; code = []; max_attempts = 0; expires_at = 0 }

module _ (now ts env : ℕ) (value otp_type identifier code : Str) (late : now / second ≤ ts)
    (d : Database) where
  -- Redemptions, validations and the deliveries still to be made are as they were.
  abbrev pub IsUnchanged : Database → Type 0
  IsUnchanged x =
      ((consume_token ts env value x).0 ≡ (consume_token ts env value d).0)
      × ((validate_otp ts env otp_type identifier code x).0
          ≡ (validate_otp ts env otp_type identifier code d).0)
      × (select pending x.deliveries ≡ select pending d.deliveries)

  horizon_past : (retention : ℤ) → horizon now retention ≤ ts
  horizon_past retention = omega (arith, late)

  expired_keeps :
      (cfg : Config) (x : Database) → IsUnchanged x → IsUnchanged (expired_batch cfg now x).1
  unfolding delete_expired_tokens
  expired_keeps cfg x (a, b, c) = (
    (consume_token-after_sweep ts env value (horizon now cfg.expired_retention) 0 batch_size x
          (horizon_past cfg.expired_retention)).0
        ∙ a,
    Otps.Sweep.answer ts env otp_type identifier code x _ refl ∙ b,
    c,
  )

  settled_keeps :
      (cfg : Config) (x : Database) → IsUnchanged x → IsUnchanged (settled_batch cfg now x).1
  unfolding delete_settled_tokens
  settled_keeps cfg x (a, b, c) = (
    (consume_token-after_sweep ts env value 0 (horizon now cfg.consumed_retention) batch_size x
          (omega arith)).1
        ∙ a,
    Otps.Sweep.answer ts env otp_type identifier code x _ refl ∙ b,
    c,
  )

  otp_keeps : (cfg : Config) (x : Database) → IsUnchanged x → IsUnchanged (otp_batch cfg now x).1
  unfolding delete_dead_otps
  otp_keeps cfg x (a, b, c) = (
    Tokens.Sweep.answer ts env value x _ refl ∙ a,
    (validate_otp-after_sweep ts env (horizon now cfg.otp_retention) batch_size otp_type identifier
          code no_request x (horizon_past cfg.otp_retention)).0
        ∙ b,
    c,
  )

  pending_kept : (before : ℕ) (w : WebhookDelivery) → pending w ≡ true → is_old before w ≡ false
  unfolding is_old pending
  pending_kept before w h = ground arith

  delivery_keeps :
      (cfg : Config) (x : Database) → IsUnchanged x → IsUnchanged (delivery_batch cfg now x).1
  unfolding delete_old_deliveries
  delivery_keeps cfg x (a, b, c) = (
    Tokens.Sweep.answer ts env value x _ refl ∙ a,
    Otps.Sweep.answer ts env otp_type identifier code x _ refl ∙ b,
    select-delete_limit batch_size (is_old (horizon now cfg.delivery_retention)) pending
          x.deliveries (pending_kept (horizon now cfg.delivery_retention))
        ∙ c,
  )

  -- A sweep at a time, under any configuration and wherever it is cancelled, leaves the answer to
  -- every redemption and every validation from that second on as it was without it, and keeps all
  -- deliveries that are still to be made.
  pub sweep-IsUnchanged :
      (config : Config) (cancelled : ℕ → ℕ → Bool)
      → IsUnchanged (sweep config now cancelled d).after
  unfolding sweep drain
  sweep-IsUnchanged config cancelled =
      let cfg = with_defaults config in
      let keep = drain_loop-keeps IsUnchanged max_batches_per_sweep 0 in
      keep (cancelled 3) (delivery_batch cfg now) _ (delivery_keeps cfg) (
        keep (cancelled 2) (otp_batch cfg now) _ (otp_keeps cfg) (
          keep (cancelled 1) (settled_batch cfg now) _ (settled_keeps cfg)
            (keep (cancelled 0) (expired_batch cfg now) d (expired_keeps cfg) (refl, refl, refl))))
