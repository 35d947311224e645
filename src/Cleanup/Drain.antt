-- ===== src/Cleanup/Drain.antt =====
-- What a drain removes.
use tokenzy.Prelude.{
  ℕ, zero, suc, ◌+◌, ◌-◌, ◌*◌, ◌≡◌, refl, Bool, false, arith, min, ltb, Bool-cases, inl, inr,
}
use tokenzy.Prelude.Table.{count_where, count_where-delete_limit}
use tokenzy.Db.{Database}
use tokenzy.Db.Tokens.{settled, delete_expired_tokens, delete_settled_tokens}
use tokenzy.Db.Otps.{dead, delete_dead_otps}
use tokenzy.Db.Webhooks.{is_old, delete_old_deliveries}
use tokenzy.Model.{Token}
use tokenzy.Cleanup.{batch_size, max_batches_per_sweep, drain, drain_loop}

-- A property that every batch keeps is kept by a drain, cancelled or not.
pub drain_loop-keeps {ℓ} :
    (P : Database → Type ℓ) (left i : ℕ) (cancelled : ℕ → Bool) (remove : Database → ℕ × Database)
    (d : Database)
    → ((x : Database) → P x → P (remove x).1)
    → P d
    → P (drain_loop left i cancelled remove d).1
unfolding drain_loop
drain_loop-keeps P zero i cancelled remove d k h = h
drain_loop-keeps P (suc left) i cancelled remove d k h = elim (Bool-cases (cancelled i)) [
  | inl c ↦ rw (c, drain_loop) h
  | inr c ↦ elim (Bool-cases (ltb (remove d).0 batch_size)) [
    | inl s ↦ rw (c, drain_loop) (rw s (k d h))
    | inr s ↦
        rw (c, drain_loop)
          (rw s (drain_loop-keeps P left (suc i) cancelled remove (remove d).1 k (k d h)))
  ]
]

module _ (backlog : Database → ℕ) (remove : Database → ℕ × Database)
    (removes : (d : Database) → (remove d).0 ≡ min batch_size (backlog d))
    (leaves : (d : Database) → backlog (remove d).1 ≡ backlog d - batch_size) where
  -- Cancelled or not, the reported total is what left the backlog.
  drain_loop-total :
      (left i : ℕ) (cancelled : ℕ → Bool) (d : Database)
      → let (total, after) = drain_loop left i cancelled remove d in
        total + backlog after ≡ backlog d
  unfolding drain_loop
  drain_loop-total zero i cancelled d = omega arith
  drain_loop-total (suc left) i cancelled d = elim (Bool-cases (cancelled i)) [
    | inl c ↦ rw (c, drain_loop) (omega arith)
    | inr c ↦ elim (Bool-cases (ltb (remove d).0 batch_size)) [
      | inl s ↦ rw (c, drain_loop) (rw s (omega (arith, removes d, leaves d)))
      | inr s ↦
          rw (c, drain_loop)
            (rw s (
              omega
                (arith, removes d, leaves d, drain_loop-total left (suc i) cancelled (remove d).1)))
    ]
  ]

  drain_loop-rest :
      (left i : ℕ) (d : Database)
      → backlog (drain_loop left i (λ _. false) remove d).1 ≡ backlog d - left * batch_size
  unfolding drain_loop
  drain_loop-rest zero i d = omega arith
  drain_loop-rest (suc left) i d = elim (Bool-cases (ltb (remove d).0 batch_size)) [
    | inl s ↦ rw (s, drain_loop) (ground (arith, removes d, leaves d))
    | inr s ↦
        rw (s, drain_loop) (omega (arith, leaves d, drain_loop-rest left (suc i) (remove d).1))
  ]

  -- The whole backlog, up to twenty batches.
  drain_undisturbed :
      (d : Database)
      → let (total, after) = drain (λ _. false) remove d in
        (total ≡ min 20_000 (backlog d)) × (backlog after ≡ backlog d - 20_000)
  unfolding drain
  drain_undisturbed d =
      let r = drain_loop-rest max_batches_per_sweep 0 d in
      let t = drain_loop-total max_batches_per_sweep 0 (λ _. false) d in
      (omega (arith, r, t), omega (arith, r))

abbrev pub is_expired : ℕ → Token → Bool
is_expired before t = ltb t.expires_at before

-- What a drain of each kind leaves and reports.
abbrev pub RemovesUpTo : (Database → ℕ) → (Database → ℕ × Database) → Database → Type 0
RemovesUpTo backlog remove d =
    let (total, after) = drain (λ _. false) remove d in
    (total ≡ min 20_000 (backlog d)) × (backlog after ≡ backlog d - 20_000)

-- Undisturbed, each of the four drains of a sweep ends by removing all rows of its kind that lie
-- before its horizon, up to 20 batches of 1000, and reports how many: expired tokens, spent and
-- revoked tokens, dead codes, and settled deliveries.
pub drain-exact :
    (before : ℕ) (d : Database)
    → RemovesUpTo
        (λ x. count_where (is_expired before) x.tokens)
        (delete_expired_tokens before batch_size)
        d
      × RemovesUpTo
          (λ x. count_where (settled before) x.tokens)
          (delete_settled_tokens before batch_size)
          d
      × RemovesUpTo (λ x. count_where (dead before) x.otps) (delete_dead_otps before batch_size) d
      × RemovesUpTo
          (λ x. count_where (is_old before) x.deliveries)
          (delete_old_deliveries before batch_size)
          d
unfolding delete_expired_tokens delete_settled_tokens delete_dead_otps delete_old_deliveries
drain-exact before d = (
  drain_undisturbed (λ x. count_where (is_expired before) x.tokens) _ (λ x. refl)
      (λ x. count_where-delete_limit batch_size (is_expired before) x.tokens) d,
  drain_undisturbed (λ x. count_where (settled before) x.tokens) _ (λ x. refl)
      (λ x. count_where-delete_limit batch_size (settled before) x.tokens) d,
  drain_undisturbed (λ x. count_where (dead before) x.otps) _ (λ x. refl)
      (λ x. count_where-delete_limit batch_size (dead before) x.otps) d,
  drain_undisturbed (λ x. count_where (is_old before) x.deliveries) _ (λ x. refl)
      (λ x. count_where-delete_limit batch_size (is_old before) x.deliveries) d,
)
