-- ===== src/Webhook/Request.antt =====
-- The signed request of one delivery (`post` and `Sign` of internal/webhook/dispatch.go). The HTTP
-- client and HMAC-SHA256 are parameters.
pub mod Signature
use tokenzy.Prelude.{
  ℕ, ◌+◌, ◌-◌, Bool, true, false, ◌&&◌, ◌||◌, Option, none, some, List, [], ◌∷◌, ◌++◌, leb, ltb,
  ◌==◌, if◌then◌else◌,
}
use tokenzy.Prelude.Str.{Str, codes, str_eq}
use tokenzy.Prelude.Decimal.{show_nat}
use tokenzy.Model.{Webhook, WebhookDelivery}
use tokenzy.Token.Generate.{hex}
use tokenzy.Webhook.Headers.{assign, equal_fold}

-- The bytes that net/textproto takes in a header name.
abbrev within : ℕ → ℕ → ℕ → Bool
within lo hi c = leb lo c && leb c hi

abbrev token_byte : ℕ → Bool
token_byte c =
    within b'a' b'z' c
    || within b'A' b'Z' c
    || within b'0' b'9' c
    || c == 33
    || within 35 39 c
    || within 42 43 c
    || within 45 46 c
    || within 94 96 c
    || c == 124
    || c == 126

abbrev all_token_bytes : Str → Bool
all_token_bytes [] = true
all_token_bytes (c ∷ s) = token_byte c && all_token_bytes s

-- The loop of CanonicalMIMEHeaderKey; the flag says that the next letter is upper case.
unfoldable pub canonical_loop : Bool → Str → Str
canonical_loop up [] = []
canonical_loop up (c ∷ s) =
    (if up && (leb b'a' c && leb c b'z')
      then c - 32
      else if (if up then false else true) && (leb b'A' c && leb c b'Z')
      then c + 32
      else c)
    ∷ canonical_loop (c == b'-') s

unfoldable pub canonical : Str → Str
canonical name = if all_token_bytes name then canonical_loop true name else name

-- http.Header.Set, on the one value that this program keeps for a name.
unfoldable pub set_header : Str → Str → List (Str × Str) → List (Str × Str)
set_header name value headers = assign (canonical name) value headers

-- http.Header.Get
unfoldable pub lookup : Str → List (Str × Str) → Option Str
lookup name [] = none
lookup name ((k, v) ∷ m) = if str_eq k name then some v else lookup name m

pub record Request : Type 0 where
  pub url : Str
  pub host : Option Str
  pub headers : List (Str × Str)
  pub body : Str

-- What the receiver's side comes back with: an error of the client, or a status code and its text.
pub data Answer : Type 0 where
  no_answer : Str → Answer
  answered : ℕ → Str → Answer

-- net/http: the error of NewRequest on a target, if any, and the answer to a request. crypto/hmac:
-- the code of a body under a key.
pub record Net : Type 0 where
  pub refuses : Str → Option Str
  pub answer : Request → Answer
  pub hmac : Str → Str → Str

-- `Sign`
unfoldable pub sign : Net → Str → Str → Str
sign net secret body = codes "sha256=" ++ hex (net.hmac secret body)

-- The loop over the webhook's own headers, in the order in which the map yields them.
unfoldable pub own_headers :
    List (Str × Str) → Option Str → List (Str × Str) → Option Str × List (Str × Str)
own_headers [] host headers = (host, headers)
own_headers ((name, value) ∷ own) host headers =
    if equal_fold name (codes "Host")
    then own_headers own (some value) headers
    else own_headers own host (set_header name value headers)

unfoldable pub build_request : Net → Webhook → WebhookDelivery → ℕ → Request
build_request net hook delivery attempt =
    let (host, own) = own_headers hook.headers none [] in
    record {
      url = hook.url;
      host = host;
      headers = set_header (codes "X-Webhook-Signature") (sign net hook.secret delivery.payload) (
          set_header (codes "X-Webhook-Attempt") (show_nat attempt) (
            set_header (codes "X-Webhook-Event") delivery.event_type (
              set_header (codes "X-Webhook-Id") delivery.event_id (
                set_header (codes "User-Agent") (codes "tokenzy-webhook/1") (
                  set_header (codes "Content-Type") (codes "application/json; charset=utf-8")
                    own)))));
      body = delivery.payload;
    }

-- The status, 0 for none, and the error, `none` for a success.
unfoldable pub post : Net → Webhook → WebhookDelivery → ℕ → ℕ × Option Str
post net hook delivery attempt = elim (net.refuses hook.url) [
  | some e ↦ (0, some e)
  | none ↦ elim (net.answer (build_request net hook delivery attempt)) [
    | no_answer e ↦ (0, some e)
    | answered code status ↦
        if ltb code 200 || leb 300 code
        then (code, some (codes "receiver answered " ++ status))
        else (code, none)
  ]
]
