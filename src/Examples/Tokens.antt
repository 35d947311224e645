-- ===== src/Examples/Tokens.antt =====
-- The tokens table and its listing at concrete inputs.
use tokenzy.Prelude.{ℕ, ◌≤◌, ◌≡◌, ◌↔◌, refl, true, some, none, List, [], ◌∷◌, Bool, arith}
use tokenzy.Prelude.Int.{pos}
use tokenzy.Prelude.Str.{Str, codes, str_eq, str_lt}
use tokenzy.Prelude.Table.{select, select_row, update_where}
use tokenzy.Model.{Token}
use tokenzy.Token.Status
use tokenzy.Db.{Database, emit_token_event}
use tokenzy.Db.Listing.{cursor_string, parse_cursor, order_rows, insert_row, newer, zero_cursor}
use tokenzy.Db.Listing.Pages.{visit, visit_complete}
use tokenzy.Db.Listing.Cursors.{parse_cursor-cursor_string}
use tokenzy.Db.Tokens.{
  consume_token, revoke_token, delete_token, redeemable, spend, scan_token, position,
  status_predicate,
}
use tokenzy.Db.Tokens.StatusFilter.{status_predicate-iff-status_of}
use tokenzy.Db.Tokens.Consume.{Outcome, consume_token-Outcome}
use tokenzy.Db.Tokens.Trace.{
  TokenCall, consume, sweep_expired, sweep_settled, step, redemptions, redeems,
}
use tokenzy.Db.Tokens.Budget.{redemptions-le-room}
use tokenzy.Db.Tokens.Voucher.{answers, promise, is_good}
use tokenzy.Db.Tokens.Refines.{answers-eq-promises}
use tokenzy.Db.Tokens.Revocation.{redemptions-revoked}

abbrev pass_value : Str
pass_value = codes "tkn_a"

abbrev pub pass : Str → ℕ → Str → Token
pass id env v = record {
  id = id;
  environment_id = env;
  value = v;
  prefix = v;
  payload_json = codes "{}";
  max_uses = some 2;
  used_count = 0;
  expires_at = 100;
  revoked_at = none;
  created_at = 10;
  last_used_at = none;
}

abbrev pub store : Database
store = record {
  projects = [];
  environments = record { id = 1; project_id = 1; slug = codes "prod"; created_at = 0 } ∷ [];
  api_keys = [];
  tokens = pass (codes "t1") 1 pass_value ∷ pass (codes "t2") 2 (codes "tkn_b") ∷ [];
  otps = [];
  webhooks = [];
  deliveries = [];
  users = [];
  sessions = [];
  hooked = Bool.true;
  events = [];
}

abbrev calls : List (ℕ × TokenCall)
calls =
    (20, consume 1 pass_value)
    ∷ (21, consume 2 pass_value)
    ∷ (22, consume 1 pass_value)
    ∷ (23, consume 1 pass_value)
    ∷ []

-- Two of the four calls are accepted.
spends : redemptions pass_value calls store ≡ 2
unfolding redemptions redeems step consume_token redeemable spend emit_token_event str_eq scan_token
    Status.status_of select_row update_where
spends = refl

consume_token-Outcome_example : Outcome 20 1 pass_value store (consume_token 20 1 pass_value store)
consume_token-Outcome_example = consume_token-Outcome 20 1 pass_value store

redemptions-le-room_example : redemptions pass_value calls store ≤ 2
unfolding str_eq
redemptions-le-room_example =
    redemptions-le-room pass_value calls store (tt, (tt, (tt, (tt, tt))))
      ((λ e. refl), ((λ e. refl), tt))

redemptions-revoked_example :
    (redemptions pass_value calls (revoke_token 20 1 (codes "t1") store).1 ≡ 0)
    × (redemptions pass_value calls (delete_token 1 (codes "t1") store).1 ≡ 0)
unfolding str_eq
redemptions-revoked_example =
    redemptions-revoked pass_value 20 1 (codes "t1") store calls
      ((λ e. refl), ((λ e. absurd (cc e)), tt)) (tt, (tt, (tt, (tt, tt))))

-- Two uses, and the cleanup deletes the row behind the second.
abbrev swept_calls : List (ℕ × TokenCall)
swept_calls =
    (20, consume 1 pass_value)
    ∷ (30, sweep_expired 25 1000)
    ∷ (40, consume 1 pass_value)
    ∷ (50, sweep_settled 45 1000)
    ∷ (60, consume 1 pass_value)
    ∷ []

answers-eq-promises_example :
    answers pass_value swept_calls store ≡ true ∷ Bool.false ∷ true ∷ Bool.false ∷ Bool.false ∷ []
unfolding select str_eq promise is_good
answers-eq-promises_example =
    answers-eq-promises pass_value 10 swept_calls store (pass (codes "t1") 1 pass_value) refl
      (tt, (tt, (tt, (tt, (tt, tt))))) (ground arith)

status_predicate-iff-status_of_example :
    (status_predicate (some Status.expired) 100 (pass (codes "t1") 1 pass_value) ≡ true)
    ↔ (Status.status_of (pass (codes "t1") 1 pass_value) 100 ≡ Status.expired)
status_predicate-iff-status_of_example =
    status_predicate-iff-status_of Status.expired 100 (pass (codes "t1") 1 pass_value)

abbrev all_rows : Token → Bool
all_rows t = Bool.true

visit_complete_example :
    visit position all_rows (pos 1) store.tokens 3 zero_cursor
    ≡ order_rows position (select all_rows store.tokens)
unfolding order_rows select insert_row newer str_lt
visit_complete_example =
    visit_complete position all_rows (pos 1) store.tokens
      (((λ e. absurd (ground arith)), tt), (tt, tt)) (refl, (refl, tt)) 3 (omega arith)

parse_cursor-cursor_string_example :
    parse_cursor (cursor_string (record { created_at = pos 1700000000; id = codes "tok_1.x" }))
    ≡ record { created_at = pos 1700000000; id = codes "tok_1.x" }
parse_cursor-cursor_string_example =
    parse_cursor-cursor_string 1700000000 (codes "tok_1.x") (omega arith) refl
