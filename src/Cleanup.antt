-- ===== src/Cleanup.antt =====
-- internal/cleanup/job.go: the retention windows and one sweep, which drains four kinds of rows in
-- batches. A Duration is an int64 of nanoseconds; the context is a function that says whether it is
-- cancelled at each of the tests the sweep makes, in order.
pub mod Drain
pub mod Safe
use tokenzy.Prelude.{ℕ, zero, suc, ◌+◌, ◌-◌, ◌*◌, ◌/◌, Bool, true, false, ltb, if◌then◌else◌}
use tokenzy.Prelude.Int.{ℤ, pos, pos_part, leb_ℤ}
use tokenzy.Ttl.{second, hour}
use tokenzy.Db.{Database}
use tokenzy.Db.Tokens.{delete_expired_tokens, delete_settled_tokens}
use tokenzy.Db.Otps.{delete_dead_otps}
use tokenzy.Db.Webhooks.{delete_old_deliveries}

abbrev pub default_interval : ℤ
default_interval = pos (600 * second)

abbrev pub default_expired_retention : ℤ
default_expired_retention = pos (24 * hour)

abbrev pub default_consumed_retention : ℤ
default_consumed_retention = pos (72 * hour)

abbrev pub default_otp_retention : ℤ
default_otp_retention = pos (24 * hour)

abbrev pub default_delivery_retention : ℤ
default_delivery_retention = pos (24 * hour)

abbrev pub batch_size : ℕ
batch_size = 1000

abbrev pub max_batches_per_sweep : ℕ
max_batches_per_sweep = 20

pub record Config : Type 0 where
  pub interval : ℤ
  pub expired_retention : ℤ
  pub consumed_retention : ℤ
  pub otp_retention : ℤ
  pub delivery_retention : ℤ

abbrev pub default_config : Config
default_config = record {
  interval = default_interval;
  expired_retention = default_expired_retention;
  consumed_retention = default_consumed_retention;
  otp_retention = default_otp_retention;
  delivery_retention = default_delivery_retention;
}

abbrev pub or_default : ℤ → ℤ → ℤ
or_default d v = if leb_ℤ v (pos 0) then d else v

-- `withDefaults`
unfoldable pub with_defaults : Config → Config
with_defaults c = record {
  interval = or_default default_interval c.interval;
  expired_retention = or_default default_expired_retention c.expired_retention;
  consumed_retention = or_default default_consumed_retention c.consumed_retention;
  otp_retention = or_default default_otp_retention c.otp_retention;
  delivery_retention = or_default default_delivery_retention c.delivery_retention;
}

-- The loop of `drain` from the i-th batch on, for a deletion that reports how many rows it removed:
-- it ends when the context is cancelled, when a batch comes back short, or at the cap.
unfoldable pub drain_loop : ℕ → ℕ → (ℕ → Bool) → (Database → ℕ × Database) → Database → ℕ × Database
drain_loop zero i cancelled remove d = (0, d)
drain_loop (suc left) i cancelled remove d = elim (cancelled i) [
  | true ↦ (0, d)
  | false ↦
      let (n, d') = remove d in
      elim (ltb n batch_size) [
        | true ↦ (n, d')
        | false ↦ let (total, d'') = drain_loop left (suc i) cancelled remove d' in (n + total, d'')
      ]
]

unfoldable pub drain : (ℕ → Bool) → (Database → ℕ × Database) → Database → ℕ × Database
drain cancelled remove d = drain_loop max_batches_per_sweep 0 cancelled remove d

-- `now.Add(-retention).Unix()`, for a time in nanoseconds. Before the epoch Go's horizon is negative
-- and this one is 0; no time stamp of a row lies before either.
abbrev pub horizon : ℕ → ℤ → ℕ
horizon now retention = (now - pos_part retention) / second

-- The four deletions of a sweep at a time, each of at most one batch.
abbrev pub expired_batch : Config → ℕ → Database → ℕ × Database
expired_batch cfg now = delete_expired_tokens (horizon now cfg.expired_retention) batch_size

abbrev pub settled_batch : Config → ℕ → Database → ℕ × Database
settled_batch cfg now = delete_settled_tokens (horizon now cfg.consumed_retention) batch_size

abbrev pub otp_batch : Config → ℕ → Database → ℕ × Database
otp_batch cfg now = delete_dead_otps (horizon now cfg.otp_retention) batch_size

abbrev pub delivery_batch : Config → ℕ → Database → ℕ × Database
delivery_batch cfg now = delete_old_deliveries (horizon now cfg.delivery_retention) batch_size

-- The rows that a sweep removed, and what it left.
pub record Swept : Type 0 where
  pub expired : ℕ
  pub settled : ℕ
  pub otps : ℕ
  pub deliveries : ℕ
  pub after : Database

-- `New` followed by one `Sweep`; `cancelled k i` is the i-th test of the context in the k-th drain.
unfoldable pub sweep : Config → ℕ → (ℕ → ℕ → Bool) → Database → Swept
sweep config now cancelled d =
    let cfg = with_defaults config in
    let (e, d1) = drain (cancelled 0) (expired_batch cfg now) d in
    let (s, d2) = drain (cancelled 1) (settled_batch cfg now) d1 in
    let (o, d3) = drain (cancelled 2) (otp_batch cfg now) d2 in
    let (w, d4) = drain (cancelled 3) (delivery_batch cfg now) d3 in
    record { expired = e; settled = s; otps = o; deliveries = w; after = d4 }
