-- ===== src/Db/Tokens/StatusFilter.antt =====
-- The predicates of the queries and the status that the Go code derives agree.
use tokenzy.Prelude.{ℕ, ◌+◌, ◌≡◌, refl, true, ◌&&◌, some, List, [], ◌∷◌, arith, ◌==◌, ◌↔◌}
use tokenzy.Prelude.Str.{Str, str_eq}
use tokenzy.Prelude.Table.{count_where}
use tokenzy.Model.{Token}
use tokenzy.Token.Status.{Status, active, expired, exhausted, revoked, status_of, usable}
use tokenzy.Db.{Database}
use tokenzy.Db.Tokens.{status_predicate, redeemable, count_tokens_by_status}

-- A row satisfies the SQL predicate of a status exactly when `StatusOf` says that status, so the
-- four predicates are disjoint and cover every row.
pub status_predicate-iff-status_of :
    (s : Status) (now : ℕ) (t : Token)
    → (status_predicate (some s) now t ≡ true) ↔ (status_of t now ≡ s)
unfolding status_predicate status_of
status_predicate-iff-status_of active now t = ground arith
status_predicate-iff-status_of expired now t = ground arith
status_predicate-iff-status_of exhausted now t = ground arith
status_predicate-iff-status_of revoked now t = ground arith

-- The WHERE clause of the consuming UPDATE accepts a row exactly when the value and the environment
-- are the row's own and `Usable` holds at that instant.
pub redeemable-usable :
    (now env : ℕ) (value : Str) (t : Token)
    → redeemable now env value t
      ≡ (str_eq t.value value && (t.environment_id == env && usable t now))
unfolding redeemable usable status_of
redeemable-usable now env value t = ground arith

counts-split :
    (now env : ℕ) (ts : List Token)
    → count_where
          (λ (t : Token). t.environment_id == env && status_predicate (some active) now t)
          ts
        + count_where
            (λ (t : Token). t.environment_id == env && status_predicate (some expired) now t)
            ts
        + count_where
            (λ (t : Token). t.environment_id == env && status_predicate (some exhausted) now t)
            ts
        + count_where
            (λ (t : Token). t.environment_id == env && status_predicate (some revoked) now t)
            ts
      ≡ count_where (λ (t : Token). t.environment_id == env) ts
unfolding count_where status_predicate
counts-split now env [] = refl
counts-split now env (t ∷ ts) = ground (arith, counts-split now env ts)

-- The four counts behind the panel's filter chips add up to the tokens of the environment.
pub count_tokens_by_status-total :
    (now env : ℕ) (d : Database)
    → count_tokens_by_status now env d active
        + count_tokens_by_status now env d expired
        + count_tokens_by_status now env d exhausted
        + count_tokens_by_status now env d revoked
      ≡ count_where (λ (t : Token). t.environment_id == env) d.tokens
unfolding count_tokens_by_status
count_tokens_by_status-total now env d = counts-split now env d.tokens
