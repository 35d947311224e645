-- ===== src/Panel/Otps.antt =====
-- internal/ui/otps.go: the pages of an environment's one-time codes.
pub mod Actions
pub mod Masked
use tokenzy.Prelude.{
  ℕ, ◌/◌, Bool, Option, none, some, List, [], ◌∷◌, ◌++◌, map, is_nil, is_some, if◌then◌else◌,
}
use tokenzy.Prelude.Int.{pos}
use tokenzy.Prelude.Str.{Str, codes, str_eq}
use tokenzy.Prelude.Text.{trim_space}
use tokenzy.Prelude.Decimal.{show_nat}
use tokenzy.Ttl.{TimeUnit, TtlError, second, units, unit_minute, human}
use tokenzy.Limits.{Limits}
use tokenzy.Model.{Otp}
use tokenzy.Otp.{
  Status, status_name, status_of, find_status, statuses, ceiling, default_length, default_attempts,
  min_length, max_length, min_attempts, max_attempts,
}
use tokenzy.Db.{Database}
use tokenzy.Db.Listing.{Cursor, parse_cursor, cursor_string, is_set}
use tokenzy.Db.Otps as Store
use tokenzy.Db.Otps.Filter.{list_otps, list_otp_types}
use tokenzy.Panel.{Request, unix, Layout, layout_for, Scope, format_time, titled, dash}
use tokenzy.Panel.Links.{StatusChip, encode, set_if, base, total}

-- `pageSize`, which internal/ui/tokens.go declares.
abbrev pub page_size : ℕ
page_size = 25

-- `OTPDetail`: the code, on request only.
pub record OtpDetail : Type 0 where
  pub code : Str

pub record OtpFilterState : Type 0 where
  pub status : Str
  pub otp_type : Str
  pub identifier : Str

abbrev pub filter_pairs : OtpFilterState → List (Str × Str)
filter_pairs f =
    set_if (codes "identifier") f.identifier
      (set_if (codes "status") f.status (set_if (codes "type") f.otp_type []))

-- `Query`
unfoldable pub query : OtpFilterState → Str
query f = if is_nil (filter_pairs f) then [] else b'?' ∷ encode (filter_pairs f)

pub record OtpRow : Type 0 where
  pub project : Str
  pub env : Str
  pub otp : Otp
  pub status : Status
  pub filter : OtpFilterState
  pub attempts : Str
  pub expires : Str
  pub created : Str
  pub settled : Str
  pub detail : Option OtpDetail

pub record OtpForm : Type 0 where
  pub otp_type : Str
  pub identifier : Str
  pub length : Str
  pub ttl_value : Str
  pub ttl_unit : Str
  pub max_attempts : Str

unfoldable pub default_otp_form : OtpForm
default_otp_form = record {
  otp_type = codes "password_reset";
  identifier = [];
  length = show_nat default_length;
  ttl_value = codes "5";
  ttl_unit = unit_minute.name;
  max_attempts = show_nat default_attempts;
}

-- Why a form is refused.
pub data OtpError : Type 0 where
  type_error identifier_error length_error attempts_error : OtpError
  ttl_error : TtlError → OtpError

pub record OtpsView : Type 0 where
  pub layout : Layout
  pub rows : List OtpRow
  pub chips : List StatusChip
  pub types : List Str
  pub new_code : Str
  pub new_code_id : Str
  pub reused : Bool
  pub error : Option OtpError
  pub more_url : Str
  pub filter : OtpFilterState
  pub form : OtpForm
  pub ttl_units : List TimeUnit
  pub max_ttl_seconds : ℕ
  pub max_ttl_label : Str
  pub min_length : ℕ
  pub max_length : ℕ
  pub min_attempts : ℕ
  pub max_attempts : ℕ
  pub total : ℕ

-- `otpsQuery`
pub record OtpsQuery : Type 0 where
  pub scope : Scope
  pub filter : OtpFilterState
  pub cursor : Str
  pub new_code : Str
  pub new_code_id : Str
  pub reused : Bool
  pub error : Option OtpError
  pub form : Option OtpForm

-- A query with the fields that a literal leaves out.
abbrev pub query_of : Scope → OtpFilterState → OtpsQuery
query_of scope filter = record {
  scope = scope;
  filter = filter;
  cursor = [];
  new_code = [];
  new_code_id = [];
  reused = Bool.false;
  error = none;
  form = none;
}

-- `otpsBase`
unfoldable pub otps_base : Scope → Str
otps_base = base (codes "otps")

-- What the server is set up with, and what the pages print by.
pub record Site : Type 0 where
  pub limits : Limits
  pub print : ℕ → Str

abbrev pub settled_text : (ℕ → Str) → Otp → Str
settled_text print o = elim o.revoked_at [
  | some at ↦ format_time print at
  | none ↦ elim o.consumed_at [ some at ↦ format_time print at | none ↦ dash ]
]

unfoldable pub otp_row_for : (ℕ → Str) → Scope → Otp → ℕ → OtpFilterState → OtpRow
otp_row_for print scope o now filter = record {
  project = scope.project.slug;
  env = scope.env.slug;
  otp = o;
  status = status_of o now;
  filter = filter;
  attempts = show_nat o.attempt_count ++ (codes " / " ++ show_nat o.max_attempts);
  expires = format_time print o.expires_at;
  created = format_time print o.created_at;
  settled = settled_text print o;
  detail = none;
}

-- The filter's status, dropped where it names none.
abbrev pub status_in : OtpFilterState → Option Status
status_in f = if is_nil f.status then none else find_status f.status statuses

abbrev pub checked_filter : OtpFilterState → OtpFilterState
checked_filter f = if is_some (status_in f) then f else record f { status = [] }

unfoldable pub status_chip : Str → (Status → ℕ) → OtpFilterState → Status → StatusChip
status_chip address counts f s = record {
  status = status_name s;
  label = status_name s;
  count = counts s;
  is_active = str_eq f.status (status_name s);
  url = address ++ query (record f { status = status_name s });
}

unfoldable pub all_chip : Str → ℕ → OtpFilterState → StatusChip
all_chip address n f = record {
  status = [];
  label = codes "All";
  count = n;
  is_active = is_nil f.status;
  url = address ++ query (record f { status = [] });
}

-- The address of the next page, empty at the end.
unfoldable pub more_url : Str → OtpFilterState → Cursor → Str
more_url address f next =
    if is_set next
    then address ++ codes "/rows?" ++ encode ((codes "cursor", cursor_string next) ∷ filter_pairs f)
    else []

unfoldable pub otps_view : Site → Request → OtpsQuery → Database → OtpsView
otps_view site r q d =
    let filter = checked_filter q.filter in
    let (otps, next) =
      list_otps (unix r) q.scope.env.id
        (record {
          status = status_in q.filter;
          otp_type = filter.otp_type;
          identifier = filter.identifier;
        })
        (pos page_size) (parse_cursor q.cursor) d in
    let counts = Store.count_otps_by_status (unix r) q.scope.env.id d in
    let address = otps_base q.scope in
    record {
      layout =
          layout_for r (titled (codes "One-time codes") q.scope.project) (some q.scope.project)
            (some q.scope.env) q.scope.envs (codes "otps");
      rows = map (λ (o : Otp). otp_row_for site.print q.scope o (unix r) filter) otps;
      chips =
          all_chip address (total counts statuses) filter
          ∷ map (status_chip address counts filter) statuses;
      types = list_otp_types q.scope.env.id d.otps;
      new_code = q.new_code;
      new_code_id = q.new_code_id;
      reused = q.reused;
      error = q.error;
      more_url = more_url address filter next;
      filter = filter;
      form = elim q.form [ none ↦ default_otp_form | some f ↦ f ];
      ttl_units = units;
      max_ttl_seconds = ceiling site.limits / second;
      max_ttl_label = human (pos (ceiling site.limits));
      min_length = min_length;
      max_length = max_length;
      min_attempts = min_attempts;
      max_attempts = max_attempts;
      total = total counts statuses;
    }
