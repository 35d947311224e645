-- ===== src/Panel/Tokens.antt =====
-- internal/ui/tokens.go: the pages of an environment's tokens. json.Indent is a parameter, as are
-- the printing of times and the random bytes.
pub mod Masked
pub mod Actions
pub mod Issue
pub mod Chips
use tokenzy.Prelude.{
  ℕ, ◌+◌, ◌/◌, Bool, true, false, not, Option, none, some, List, [], ◌∷◌, ◌++◌, map, is_nil,
  is_none, if◌then◌else◌,
}
use tokenzy.Prelude.Int.{ℤ, pos}
use tokenzy.Prelude.Str.{Str, codes, str_eq}
use tokenzy.Prelude.Text.{trim_space}
use tokenzy.Prelude.Decimal.{parse_int64, show_nat}
use tokenzy.Ttl
use tokenzy.Ttl.{TimeUnit, TtlError, second, units, unit_minute, human}
use tokenzy.Limits.{Limits}
use tokenzy.Model.{Token}
use tokenzy.Token.Status.{Status, status_name, status_of, find_status, statuses}
use tokenzy.Token.Limits as TokenLimits
use tokenzy.Token.Limits.{
  Json, PayloadCheck, validate_payload, validate_max_uses, parse_ttl, ceiling,
}
use tokenzy.Token.Generate.{generate, new_id}
use tokenzy.Db.{Database, ok, err, not_found}
use tokenzy.Db.Listing.{Cursor, parse_cursor, cursor_string, is_set}
use tokenzy.Db.Tokens as Store
use tokenzy.Api.Tokens.{Fresh, checked_uses}
use tokenzy.Panel.{
  Request, unix, expiry, Answer, fragment, unknown, bad_request, internal_error, render_listing,
  Layout, layout_for, Scope, resolve_env, reading, writing, format_time, format_time_ptr, titled,
}
use tokenzy.Panel.Links.{StatusChip, query_escape, encode, set_if, base, total}

abbrev pub page_size : ℕ
page_size = 25

-- `TokenDetail`; the value is filled in on request only.
pub record TokenDetail : Type 0 where
  pub payload : Str
  pub value : Str

pub record TokenRow : Type 0 where
  pub project : Str
  pub env : Str
  pub token : Token
  pub status : Status
  pub filter : Str
  pub uses : Str
  pub expires : Str
  pub created : Str
  pub last_used : Str
  pub detail : Option TokenDetail

pub record TokenForm : Type 0 where
  pub payload : Str
  pub ttl_value : Str
  pub ttl_unit : Str
  pub max_uses : Str

-- The `\n`, `\"` and blanks of the sample payload as it stands in the source.
unfoldable pub default_token_form : TokenForm
default_token_form = record {
  payload =
      b'{' ∷ 10 ∷ codes "  "
      ++ (34 ∷ codes "userId")
      ++ (34 ∷ codes ": ")
      ++ (34 ∷ codes "usr_123")
      ++ (34 ∷ b',' ∷ 10 ∷ codes "  ")
      ++ (34 ∷ codes "action")
      ++ (34 ∷ codes ": ")
      ++ (34 ∷ codes "accept_invitation")
      ++ (34 ∷ 10 ∷ b'}' ∷ []);
  ttl_value = codes "15";
  ttl_unit = unit_minute.name;
  max_uses = codes "1";
}

-- Why a form is refused.
pub data TokenError : Type 0 where
  payload_error : PayloadCheck → TokenError
  ttl_error : TtlError → TokenError
  max_uses_error : TokenError

pub record TokensView : Type 0 where
  pub layout : Layout
  pub rows : List TokenRow
  pub chips : List StatusChip
  pub new_token : Str
  pub new_token_id : Str
  pub error : Option TokenError
  pub more_url : Str
  pub status : Str
  pub form : TokenForm
  pub ttl_units : List TimeUnit
  pub max_ttl_seconds : ℕ
  pub max_ttl_label : Str
  pub total : ℕ

-- `tokensQuery`
pub record TokensQuery : Type 0 where
  pub scope : Scope
  pub status : Str
  pub cursor : Str
  pub new_token : Str
  pub new_token_id : Str
  pub error : Option TokenError
  pub form : Option TokenForm

-- A query with the fields that a literal leaves out.
abbrev pub query_of : Scope → Str → TokensQuery
query_of scope status = record {
  scope = scope;
  status = status;
  cursor = [];
  new_token = [];
  new_token_id = [];
  error = none;
  form = none;
}

-- `tokensBase`
unfoldable pub tokens_base : Scope → Str
tokens_base = base (codes "tokens")

-- What the server is set up with, and what the pages print by.
pub record Site : Type 0 where
  pub limits : Limits
  pub print : ℕ → Str
  pub indent : Str → Option Str

unfoldable pub uses_text : Token → Str
uses_text t = elim t.max_uses [
  | none ↦ show_nat t.used_count ++ (codes " / " ++ (0xe2 ∷ 0x88 ∷ 0x9e ∷ []))
  | some m ↦ show_nat t.used_count ++ (codes " / " ++ show_nat m)
]

unfoldable pub token_row_for : (ℕ → Str) → Scope → Token → ℕ → Str → TokenRow
token_row_for print scope t now filter = record {
  project = scope.project.slug;
  env = scope.env.slug;
  token = t;
  status = status_of t now;
  filter = filter;
  uses = uses_text t;
  expires = format_time print t.expires_at;
  created = format_time print t.created_at;
  last_used = format_time_ptr print t.last_used_at;
  detail = none;
}

-- The filter, dropped where it names no status.
abbrev pub filter_of : Str → Option Status
filter_of s = if is_nil s then none else find_status s statuses

abbrev pub filter_name : Option Status → Str
filter_name none = []
filter_name (some s) = status_name s

unfoldable pub status_chip : Str → (Status → ℕ) → Option Status → Status → StatusChip
status_chip address counts filter s = record {
  status = status_name s;
  label = status_name s;
  count = counts s;
  is_active = str_eq (filter_name filter) (status_name s);
  url = address ++ codes "?status=" ++ query_escape (status_name s);
}

unfoldable pub all_chip : Str → ℕ → Option Status → StatusChip
all_chip address n filter = record {
  status = [];
  label = codes "All";
  count = n;
  is_active = is_none filter;
  url = address;
}

-- The address of the next page, empty at the end.
unfoldable pub more_url : Str → Option Status → Cursor → Str
more_url address filter next =
    if is_set next
    then address
      ++ codes "/rows?"
      ++ encode
          ((codes "cursor", cursor_string next) ∷ set_if (codes "status") (filter_name filter) [])
    else []

unfoldable pub tokens_view : Site → Request → TokensQuery → Database → TokensView
tokens_view site r q d =
    let filter = filter_of q.status in
    let (tokens, next) =
      Store.list_tokens (unix r) q.scope.env.id filter (pos page_size) (parse_cursor q.cursor) d in
    let counts = Store.count_tokens_by_status (unix r) q.scope.env.id d in
    let address = tokens_base q.scope in
    record {
      layout =
          layout_for r (titled (codes "Tokens") q.scope.project) (some q.scope.project)
            (some q.scope.env) q.scope.envs (codes "tokens");
      rows =
          map (λ (t : Token). token_row_for site.print q.scope t (unix r) (filter_name filter))
            tokens;
      chips =
          all_chip address (total counts statuses) filter
          ∷ map (status_chip address counts filter) statuses;
      new_token = q.new_token;
      new_token_id = q.new_token_id;
      error = q.error;
      more_url = more_url address filter next;
      status = filter_name filter;
      form = elim q.form [ none ↦ default_token_form | some f ↦ f ];
      ttl_units = units;
      max_ttl_seconds = ceiling site.limits / second;
      max_ttl_label = human (pos (ceiling site.limits));
      total = total counts statuses;
    }
