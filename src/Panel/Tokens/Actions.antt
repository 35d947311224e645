-- ===== src/Panel/Tokens/Actions.antt =====
-- internal/ui/tokens.go: the handlers.
use tokenzy.Prelude.{ℕ, Option, none, some, [], is_nil, if◌then◌else◌}
use tokenzy.Prelude.Int.{ℤ}
use tokenzy.Prelude.Str.{Str, codes}
use tokenzy.Prelude.Text.{trim_space}
use tokenzy.Prelude.Decimal.{parse_int64}
use tokenzy.Ttl
use tokenzy.Token.Limits as TokenLimits
use tokenzy.Token.Limits.{Json, validate_payload, validate_max_uses, parse_ttl}
use tokenzy.Token.Generate.{generate, new_id}
use tokenzy.Db.{Database, ok, err, not_found}
use tokenzy.Db.Tokens as Store
use tokenzy.Api.Tokens.{checked_uses}
use tokenzy.Panel.{
  Request, unix, expiry, Answer, fragment, unknown, internal_error, render_listing, Scope,
  resolve_env, reading, writing, settled,
}
use tokenzy.Panel.Tokens.{
  Site, TokenForm, TokenRow, TokensView, TokensQuery, TokenError, payload_error, ttl_error,
  max_uses_error, query_of, tokens_view, token_row_for,
}

-- `renderTokensPanel`
unfoldable pub render_tokens_panel : Site → Request → TokensQuery → ℕ → Database → Answer TokensView
render_tokens_panel site r q code d = fragment code (codes "tokens_panel") (tokens_view site r q d)

-- The query parameter `status` is an argument of its own.
unfoldable pub tokens_page : Site → Request → Str → Database → Answer TokensView
tokens_page site r status d = reading (resolve_env r d) λ scope.
    render_listing r (codes "tokens.html") (codes "tokens_panel")
      (tokens_view site r (query_of scope status) d)

unfoldable pub token_rows : Site → Request → Str → Str → Database → Answer TokensView
token_rows site r status cursor d = reading (resolve_env r d) λ scope.
    fragment 200 (codes "token_rows")
      (tokens_view site r (record (query_of scope status) { cursor = cursor }) d)

-- The random bytes of one request.
pub record Entropy : Type 0 where
  pub id_bytes : Option Str
  pub first_bytes : Option Str
  pub second_bytes : Option Str

-- A form that has passed the checks.
pub record Checked : Type 0 where
  pub payload : Str
  pub ttl : ℤ
  pub max_uses : Option ℤ

pub data Verdict : Type 0 where
  accepted : Checked → Verdict
  refused : TokenError → Verdict

-- A blank field is no limit; `none` is a text that is no number.
unfoldable pub read_max_uses : Str → Option (Option ℤ)
read_max_uses raw =
    if is_nil (trim_space raw)
    then some none
    else elim (parse_int64 (trim_space raw)) [ none ↦ none | some n ↦ some (some n) ]

-- The checks of `createToken` in their order.
unfoldable pub check_form : Json → Site → TokenForm → Verdict
check_form json site form = elim (validate_payload json form.payload) [
  | TokenLimits.ok payload ↦ elim (parse_ttl site.limits form.ttl_value form.ttl_unit) [
    | Ttl.err e ↦ refused (ttl_error e)
    | Ttl.ok ttl ↦ elim (read_max_uses form.max_uses) [
      | none ↦ refused max_uses_error
      | some uses ↦
          if validate_max_uses uses
          then accepted (record { payload = payload; ttl = ttl; max_uses = uses })
          else refused max_uses_error
    ]
  ]
  | other ↦ refused (payload_error other)
]

-- `createToken` behind the checks: the draws, the INSERT and the panel that shows the value.
unfoldable pub issue :
    Site → Request → Scope → Str → Entropy → Checked → Database → Answer TokensView × Database
issue site r scope status rnd c d = elim (new_id rnd.id_bytes) [
  | none ↦ (internal_error, d)
  | some id ↦ elim (generate rnd.first_bytes rnd.second_bytes) [
    | none ↦ (internal_error, d)
    | some value ↦
        let (res, d') =
          Store.create_token (unix r) scope.env.id id value c.payload (checked_uses c.max_uses)
            (expiry r c.ttl) d in
        elim res [
          | err e ↦ (internal_error, d')
          | ok t ↦ (
            render_tokens_panel site r
                (record (query_of scope status) { new_token = t.value; new_token_id = t.id }) 200
                d',
            d',
          )
        ]
  ]
]

-- `createToken`, on the form and the hidden field `status`.
unfoldable pub create_token :
    Json → Site → Request → Str → TokenForm → Entropy → Database → Answer TokensView × Database
create_token json site r status form rnd d = writing (resolve_env r d) d λ scope.
    elim (check_form json site form) [
      | refused e ↦ (
        render_tokens_panel site r
            (record (query_of scope status) { error = some e; form = some form }) 422 d,
        d,
      )
      | accepted c ↦ issue site r scope status rnd c d
    ]

-- `prettyJSON`
unfoldable pub pretty_json : Site → Str → Str
pretty_json site raw = elim (site.indent raw) [ none ↦ raw | some s ↦ s ]

abbrev pub row_group : TokenRow → Answer TokenRow
row_group row = fragment 200 (codes "token_group") row

unfoldable pub token_detail : Site → Request → Str → Database → Answer TokenRow
token_detail site r status d = reading (resolve_env r d) λ scope.
    elim (Store.get_token scope.env.id r.id d) [
      | err not_found ↦ unknown
      | err _ ↦ internal_error
      | ok t ↦ row_group (record (token_row_for site.print scope t (unix r) status) {
        detail = some (record { payload = pretty_json site t.payload_json; value = [] });
      })
    ]

unfoldable pub token_row : Site → Request → Str → Database → Answer TokenRow
token_row site r status d = reading (resolve_env r d) λ scope.
    elim (Store.get_token scope.env.id r.id d) [
      | err not_found ↦ unknown
      | err _ ↦ internal_error
      | ok t ↦ row_group (token_row_for site.print scope t (unix r) status)
    ]

unfoldable pub reveal_token : Site → Request → Str → Database → Answer TokenRow
reveal_token site r status d = reading (resolve_env r d) λ scope.
    elim (Store.get_token scope.env.id r.id d) [
      | err not_found ↦ unknown
      | err _ ↦ internal_error
      | ok t ↦ elim (Store.get_token_value scope.env.id t.id d) [
        | err _ ↦ internal_error
        | ok value ↦ row_group (record (token_row_for site.print scope t (unix r) status) {
          detail = some (record { payload = pretty_json site t.payload_json; value = value });
        })
      ]
    ]

-- A token that is revoked already, or absent, is no error of the UPDATE; the row is read again.
unfoldable pub revoke_token : Site → Request → Str → Database → Answer TokenRow × Database
revoke_token site r status d = writing (resolve_env r d) d λ scope.
    let (res, d') = Store.revoke_token (unix r) scope.env.id r.id d in
    let reread : Answer TokenRow = elim (Store.get_token scope.env.id r.id d') [
      | err not_found ↦ unknown
      | err _ ↦ internal_error
      | ok t ↦ row_group (token_row_for site.print scope t (unix r) status)
    ] in
    settled res reread d'

unfoldable pub delete_token : Site → Request → Str → Database → Answer TokensView × Database
delete_token site r status d = writing (resolve_env r d) d λ scope.
    let (res, d') = Store.delete_token scope.env.id r.id d in
    let panel = render_tokens_panel site r (query_of scope status) 200 d' in settled res panel d'
