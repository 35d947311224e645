-- ===== src/Server/Variables.antt =====
-- main.go: `loadDotEnv`, `unquote`, `envBool` and `envDuration`. time.ParseDuration is a parameter.
pub mod DotEnv
use tokenzy.Prelude.{
  ℕ, ◌+◌, ◌-◌, ◌*◌, Bool, true, false, not, ◌&&◌, ◌||◌, Option, none, some, List, [], ◌∷◌, ◌++◌,
  ltb, leb, ◌==◌, is_nil, is_some, length, take, get_last?, if◌then◌else◌,
}
use tokenzy.Prelude.Int.{ℤ, pos, leb_ℤ}
use tokenzy.Prelude.Str.{Str, codes, str_eq}
use tokenzy.Prelude.Text.{trim_space, cut, split_at}

-- The process environment, where a variable has one entry.
abbrev pub Variables : Type 0
Variables = List (Str × Str)

-- os.LookupEnv and os.Getenv
unfoldable pub lookup_env : Str → Variables → Option Str
lookup_env k [] = none
lookup_env k ((j, v) ∷ env) = if str_eq j k then some v else lookup_env k env

unfoldable pub get_env : Str → Variables → Str
get_env k env = elim (lookup_env k env) [ none ↦ [] | some v ↦ v ]

-- A NUL byte, which no variable can hold.
unfoldable pub has_nul : Str → Bool
has_nul [] = false
has_nul (c ∷ s) = c == 0 || has_nul s

-- os.Setenv for a variable that is not set, and whose name has no `=` in it.
unfoldable pub set_env : Str → Str → Variables → Option Variables
set_env k v env = if has_nul k || has_nul v then none else some (env ++ ((k, v) ∷ []))

unfoldable pub unquote : Str → Str
unquote [] = []
unquote (first ∷ s) = elim (get_last? s) [
  | none ↦ first ∷ s
  | some last ↦
      if (first == 34 && last == 34) || (first == 39 && last == 39)
      then take (length s - 1) s
      else first ∷ s
]

-- strings.TrimPrefix
unfoldable pub trim_prefix : Str → Str → Option Str
trim_prefix [] s = some s
trim_prefix (p ∷ ps) [] = none
trim_prefix (p ∷ ps) (c ∷ s) = if p == c then trim_prefix ps s else none

abbrev pub without_export : Str → Str
without_export line = elim (trim_prefix (codes "export ") line) [ none ↦ line | some s ↦ s ]

-- What one line asks for.
pub data Line : Type 0 where
  skip no_pair no_key : Line
  pair : Str → Str → Line

abbrev pub pair_of : Str × Str → Line
pair_of (key, value) =
    if is_nil (trim_space key) then no_key else pair (trim_space key) (unquote (trim_space value))

unfoldable pub read_line : Str → Line
read_line raw =
    let line = trim_space raw in
    if is_nil line
    then skip
    else if is_some (trim_prefix (codes "#") line)
    then skip
    else elim (cut b'=' (without_export line)) [ none ↦ no_pair | some kv ↦ pair_of kv ]

-- The errors, with the number of the line.
pub data DotEnvError : Type 0 where
  unreadable too_long : DotEnvError
  expected_pair empty_key bad_variable : ℕ → DotEnvError

-- bufio.Scanner gives up on a line that fills its buffer.
abbrev pub buffer_size : ℕ
buffer_size = 64 * 1024

-- What the loop does with a line, where `rest` is the loop over the lines behind it. A variable that
-- is set is left alone.
unfoldable pub apply_line :
    (Variables → Option DotEnvError × Variables)
    → ℕ
    → Variables
    → Line
    → Option DotEnvError × Variables
apply_line rest n env skip = rest env
apply_line rest n env no_pair = (some (expected_pair n), env)
apply_line rest n env no_key = (some (empty_key n), env)
apply_line rest n env (pair k v) = elim (is_some (lookup_env k env)) [
  | true ↦ rest env
  | false ↦ elim (set_env k v env) [ none ↦ (some (bad_variable n), env) | some env' ↦ rest env' ]
]

-- The loop of `loadDotEnv`, over the lines from the n-th on: what has been set stays set when a later
-- line is refused.
unfoldable pub load_lines : ℕ → List Str → Variables → Option DotEnvError × Variables
load_lines n [] env = (none, env)
load_lines n (l ∷ ls) env = elim (ltb (length l) buffer_size) [
  | false ↦ (some too_long, env)
  | true ↦ apply_line (load_lines (n + 1) ls) n env (read_line l)
]

-- What os.Open finds.
pub data EnvFile : Type 0 where
  absent unreadable_file : EnvFile
  content : Str → EnvFile

-- The lines that bufio.Scanner yields: an empty one at the very end is none. A carriage return
-- before a line end goes with the white space that is trimmed.
unfoldable pub drop_last_empty : List Str → List Str
drop_last_empty [] = []
drop_last_empty (l ∷ []) = if is_nil l then [] else l ∷ []
drop_last_empty (l ∷ m ∷ ls) = l ∷ drop_last_empty (m ∷ ls)

unfoldable pub load_dot_env : EnvFile → Variables → Option DotEnvError × Variables
load_dot_env absent env = (none, env)
load_dot_env unreadable_file env = (some unreadable, env)
load_dot_env (content text) env = load_lines 1 (drop_last_empty (split_at 10 text)) env

-- strings.ToLower on ASCII; the spellings below have no other letters, and no other letter is
-- lowered to one of theirs except the Kelvin sign, which none of them has.
abbrev pub to_lower : ℕ → ℕ
to_lower c = if leb 65 c && leb c 90 then c + 32 else c

abbrev pub lowered : Str → Str
lowered [] = []
lowered (c ∷ s) = to_lower c ∷ lowered s

unfoldable pub one_of : List Str → Str → Bool
one_of [] s = false
one_of (w ∷ ws) s = str_eq s w || one_of ws s

abbrev pub true_words : List Str
true_words = codes "1" ∷ codes "true" ∷ codes "yes" ∷ codes "y" ∷ codes "on" ∷ []

abbrev pub false_words : List Str
false_words = codes "0" ∷ codes "false" ∷ codes "no" ∷ codes "n" ∷ codes "off" ∷ []

-- `envBool`; `none` is the error.
unfoldable pub env_bool : Str → Bool → Variables → Option Bool
env_bool name default env =
    let raw = trim_space (get_env name env) in
    if is_nil raw
    then some default
    else if one_of true_words (lowered raw)
    then some true
    else if one_of false_words (lowered raw)
    then some false
    else none

-- `envDuration`; `none` is one of the errors.
unfoldable pub env_duration : (Str → Option ℤ) → Str → ℤ → Variables → Option ℤ
env_duration parse name default env =
    let raw = trim_space (get_env name env) in
    if is_nil raw
    then some default
    else elim (parse raw) [ none ↦ none | some d ↦ if leb_ℤ d (pos 0) then none else some d ]
