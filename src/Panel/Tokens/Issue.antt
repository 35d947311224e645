-- ===== src/Panel/Tokens/Issue.antt =====
-- The issue form does what the API does.
use tokenzy.Prelude.{ℕ, ◌≡◌, true, Option, none, some, arith}
use tokenzy.Prelude.Int.{ℤ}
use tokenzy.Prelude.Str.{Str}
use tokenzy.Limits
use tokenzy.Token.Limits as TokenLimits
use tokenzy.Token.Limits.{Json, PayloadCheck, validate_payload, validate_max_uses, parse_ttl}
use tokenzy.Db.{Database}
use tokenzy.Api.{Reply, created}
use tokenzy.Api.Tokens as Api
use tokenzy.Panel.{Request, Answer, fragment, Scope, found, resolve_env, writing}
use tokenzy.Panel.Tokens.{Site, TokenForm, TokensView, tokens_view}
use tokenzy.Panel.Tokens.Actions.{
  Checked, accepted, Entropy, check_form, issue, create_token, render_tokens_panel,
}

-- An accepted form has a payload and a limit that the API accepts.
check_form-payload :
    (json : Json) (site : Site) (form : TokenForm) (c : Checked)
    → check_form json site form ≡ accepted c
    → validate_payload json form.payload ≡ TokenLimits.ok c.payload
unfolding check_form
check_form-payload json site form c h = ground arith

check_form-uses :
    (json : Json) (site : Site) (form : TokenForm) (c : Checked)
    → check_form json site form ≡ accepted c
    → validate_max_uses c.max_uses ≡ true
unfolding check_form
check_form-uses json site form c h = ground arith

abbrev pub request_of : TokenForm → Checked → ℤ → Api.CreateRequest
request_of form c seconds = record {
  payload = form.payload;
  max_uses = c.max_uses;
  ttl_seconds = seconds;
}

abbrev pub fresh_of : Request → Entropy → Api.Fresh
fresh_of r rnd = record {
  now = r.now;
  id_bytes = rnd.id_bytes;
  first_bytes = rnd.first_bytes;
  second_bytes = rnd.second_bytes;
}

-- The token and the id that an answer shows.
abbrev pub shown : Answer TokensView → Option (Str × Str)
shown (fragment code name view) = some (view.new_token, view.new_token_id)
shown _ = none

abbrev pub answered : Reply Api.CreateResponse → Option (Str × Str)
answered (created x) = some (x.token, x.id)
answered _ = none

issue-eq-issue :
    (site : Site) (r : Request) (scope : Scope) (status : Str) (rnd : Entropy) (c : Checked)
    (d : Database)
    → let panel = issue site r scope status rnd c d in
      let api =
        Api.issue (fresh_of r rnd) scope.env.id c.payload (Api.checked_uses c.max_uses) c.ttl d in
      (shown panel.0 ≡ answered api.0) × (panel.1 ≡ api.1)
unfolding issue Api.issue render_tokens_panel tokens_view
issue-eq-issue site r scope status rnd c d = ground arith

create-eq-issue :
    (json : Json) (site : Site) (fresh : Api.Fresh) (env : ℕ) (req : Api.CreateRequest)
    (d : Database) (payload : Str) (ttl : ℤ)
    → validate_payload json req.payload ≡ TokenLimits.ok payload
    → validate_max_uses req.max_uses ≡ true
    → TokenLimits.validate_ttl site.limits req.ttl_seconds ≡ Limits.ok ttl
    → Api.create json site.limits fresh env req d
      ≡ Api.issue fresh env payload (Api.checked_uses req.max_uses) ttl d
unfolding Api.create
create-eq-issue json site fresh env req d payload ttl h k l = ground arith

create_token-eq-issue :
    (json : Json) (site : Site) (r : Request) (status : Str) (form : TokenForm) (rnd : Entropy)
    (d : Database) (scope : Scope) (c : Checked)
    → resolve_env r d ≡ found scope
    → check_form json site form ≡ accepted c
    → create_token json site r status form rnd d ≡ issue site r scope status rnd c d
unfolding create_token
create_token-eq-issue json site r status form rnd d scope c e h = rw (e, writing) (rw h)

-- An accepted form issues the token that the API issues: with the same draws at the same instant, for
-- the payload and the limit of the form and a `ttlSeconds` that stands for its lifetime, the database
-- behind the panel's request is the one behind the API's, and the panel shows the token and the id
-- that the API answers, or neither answers one.
pub create_token-eq-create :
    (json : Json) (site : Site) (r : Request) (status : Str) (form : TokenForm) (rnd : Entropy)
    (d : Database) (scope : Scope) (c : Checked) (seconds : ℤ)
    → resolve_env r d ≡ found scope
    → check_form json site form ≡ accepted c
    → TokenLimits.validate_ttl site.limits seconds ≡ Limits.ok c.ttl
    → let panel = create_token json site r status form rnd d in
      let api =
        Api.create json site.limits (fresh_of r rnd) scope.env.id (request_of form c seconds) d in
      (shown panel.0 ≡ answered api.0) × (panel.1 ≡ api.1)
create_token-eq-create json site r status form rnd d scope c seconds e h k =
    rw (create_token-eq-issue json site r status form rnd d scope c e h) (
      rw
        (create-eq-issue json site (fresh_of r rnd) scope.env.id (request_of form c seconds) d
          c.payload c.ttl (check_form-payload json site form c h)
          (check_form-uses json site form c h) k)
        (issue-eq-issue site r scope status rnd c d))
