-- ===== src/Db/Otps/StatusFilter.antt =====
-- The predicates of the queries and the status that the Go code derives agree.
use tokenzy.Prelude.{ℕ, ◌+◌, Bool, ◌≡◌, refl, true, ◌&&◌, some, List, [], ◌∷◌, arith, ◌==◌, ◌↔◌}
use tokenzy.Prelude.Table.{count_where}
use tokenzy.Model.{Otp}
use tokenzy.Otp.{Status, active, consumed, expired, locked, revoked, status_of}
use tokenzy.Db.{Database}
use tokenzy.Db.Otps.{otp_status_predicate, count_otps_by_status}

-- A row satisfies the SQL predicate of a status exactly when `StatusOf` says that status, so the
-- five predicates are disjoint and cover every row.
pub otp_status_predicate-iff-status_of :
    (s : Status) (now : ℕ) (o : Otp)
    → (otp_status_predicate (some s) now o ≡ true) ↔ (status_of o now ≡ s)
unfolding otp_status_predicate status_of
otp_status_predicate-iff-status_of active now o = ground arith
otp_status_predicate-iff-status_of consumed now o = ground arith
otp_status_predicate-iff-status_of expired now o = ground arith
otp_status_predicate-iff-status_of locked now o = ground arith
otp_status_predicate-iff-status_of revoked now o = ground arith

abbrev counted : ℕ → ℕ → Status → Otp → Bool
counted now env s o = o.environment_id == env && otp_status_predicate (some s) now o

counts-split :
    (now env : ℕ) (os : List Otp)
    → count_where (counted now env active) os
        + count_where (counted now env consumed) os
        + count_where (counted now env expired) os
        + count_where (counted now env locked) os
        + count_where (counted now env revoked) os
      ≡ count_where (λ (o : Otp). o.environment_id == env) os
unfolding count_where otp_status_predicate
counts-split now env [] = refl
counts-split now env (o ∷ os) = ground (arith, counts-split now env os)

-- The five counts behind the panel's filter chips add up to the codes of the environment.
pub count_otps_by_status-total :
    (now env : ℕ) (d : Database)
    → count_otps_by_status now env d active
        + count_otps_by_status now env d consumed
        + count_otps_by_status now env d expired
        + count_otps_by_status now env d locked
        + count_otps_by_status now env d revoked
      ≡ count_where (λ (o : Otp). o.environment_id == env) d.otps
unfolding count_otps_by_status
count_otps_by_status-total now env d = counts-split now env d.otps
