-- ===== src/Db/Tokens/Consume.antt =====
-- `ConsumeToken` against `Usable`, on every branch, with the events that it reports.
use mathlib.Core.Path.{fun_ext}
use mathlib.Core.List.{append_assoc}
use tokenzy.Prelude.{
  ℕ, ◌+◌, ◌≡◌, ap, Bool, true, ◌&&◌, ◌⊎◌, inl, inr, none, some, List, [], ◌∷◌, ◌++◌, arith, ◌==◌,
  if◌then◌else◌, Option-cases, Bool-cases,
}
use tokenzy.Prelude.Str.{Str, str_eq}
use tokenzy.Prelude.Table.{select_row, update_where, select_row-holds}
use tokenzy.Model.{Token, EventType, token_consumed, token_exhausted}
use tokenzy.Token.Status.{usable, status_of}
use tokenzy.Db.{Database, Result, ok, err, not_found, TokenEvent, emit_token_event}
use tokenzy.Db.Tokens.{redeemable, spend, scan_token, consume_token, emit_if_exhausted}
use tokenzy.Db.Tokens.StatusFilter.{redeemable-usable}

-- The rows that a redemption may spend, by the Go code's own notion of a usable token.
abbrev pub live : ℕ → ℕ → Str → Token → Bool
live now env value t = str_eq t.value value && (t.environment_id == env && usable t now)

-- The row after one use, without its plaintext.
abbrev pub spent_once : ℕ → Token → Token
spent_once now t = record t { value = []; used_count = t.used_count + 1; last_used_at = some now }

abbrev pub event_of : EventType → ℕ → ℕ → Token → TokenEvent
event_of kind now env t = record { env_id = env; event_type = kind; tok = spent_once now t }

-- The events of one redemption: `token.exhausted` follows if that was the last use.
abbrev pub consume_events : ℕ → ℕ → Token → List TokenEvent
consume_events now env t = event_of token_consumed now env t ∷ elim t.max_uses [
  | none ↦ []
  | some m ↦ if m == t.used_count + 1 then event_of token_exhausted now env t ∷ [] else []
]

abbrev pub Outcome : ℕ → ℕ → Str → Database → Result Token × Database → Type 0
Outcome now env value d r =
    ((select_row (live now env value) d.tokens ≡ none) × (r ≡ (err not_found, d)))
    ⊎ ((t : Token) × (select_row (live now env value) d.tokens ≡ some t)
        × (r ≡ (
          ok (spent_once now t),
          record d {
            tokens = update_where (live now env value) (spend now) d.tokens;
            events = if d.hooked then d.events ++ consume_events now env t else d.events;
          },
        )))

-- The steps of `ConsumeToken` behind a hit come to one write and the listed events.
hit :
    (now env : ℕ) (value : Str) (t : Token) (d : Database) (rows : List Token)
    → redeemable now env value t ≡ true
    → emit_if_exhausted now env
        (spent_once now t)
        (emit_token_event env token_consumed (spent_once now t) (record d { tokens = rows }))
      ≡ record d {
        tokens = rows;
        events = if d.hooked then d.events ++ consume_events now env t else d.events;
      }
unfolding emit_token_event redeemable status_of
hit now env value t d rows h = elim (Bool-cases d.hooked) [
  | inl on ↦ rw on (
      ground (
        arith,
        append_assoc d.events (event_of token_consumed now env t ∷ [])
            (event_of token_exhausted now env t ∷ []),
      ))
  | inr off ↦ rw off (ground arith)
]

-- A redemption is accepted exactly when some row with that value and environment is usable. It then
-- returns the row with one more use and the time of it, writes that row, and reports
-- `token.consumed`, followed by `token.exhausted` if the limit is now reached. Otherwise it
-- answers "not found" and changes nothing.
pub consume_token-Outcome :
    (now env : ℕ) (value : Str) (d : Database)
    → Outcome now env value d (consume_token now env value d)
unfolding consume_token scan_token emit_token_event spend
consume_token-Outcome now env value d =
    rw (← fun_ext (redeemable-usable now env value))
      (elim (Option-cases (select_row (redeemable now env value) d.tokens)) [
        | inl e ↦ inl (e, rw (e, consume_token))
        | inr (t, e) ↦ inr (
          t,
          e,
          rw (e, consume_token)
              (ap (λ d'. (ok (spent_once now t), d'))
                (hit now env value t d _ (select_row-holds _ d.tokens t e))),
        )
      ])
