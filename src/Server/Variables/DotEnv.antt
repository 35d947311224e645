-- ===== src/Server/Variables/DotEnv.antt =====
-- What the file of variables does to the environment.
use tokenzy.Prelude.{
  ℕ, ◌+◌, ◌≡◌, refl, ap, ◌∙◌, Bool, Bool-cases, Option-cases, subst, true, false, Option, none,
  some, List, [], ◌∷◌, ◌++◌, arith, ltb, length, is_some, is_none, inl, inr, if◌then◌else◌,
}
use tokenzy.Prelude.Str.{Str, str_eq, str_eq-eq}
use tokenzy.Prelude.Text.{split_at}
use tokenzy.Server.Variables.{
  Variables, lookup_env, set_env, Line, skip, no_pair, no_key, pair, read_line, DotEnvError,
  apply_line, load_lines, content, drop_last_empty, load_dot_env, buffer_size,
}

-- The value of the first line that sets the variable.
abbrev pub value_in : Str → Line → Option Str → Option Str
value_in k (pair j v) rest = if str_eq j k then some v else rest
value_in k skip rest = rest
value_in k no_pair rest = rest
value_in k no_key rest = rest

abbrev pub first_value : Str → List Str → Option Str
first_value k [] = none
first_value k (l ∷ ls) = value_in k (read_line l) (first_value k ls)

-- A value, or else another.
abbrev pub or_else : Option Str → Option Str → Option Str
or_else none other = other
or_else (some v) other = some v

lookup_env-append :
    (k j v : Str) (env : Variables)
    → lookup_env k (env ++ ((j, v) ∷ []))
      ≡ or_else (lookup_env k env) (if str_eq j k then some v else none)
unfolding lookup_env
lookup_env-append k j v [] = refl
lookup_env-append k j v ((i, w) ∷ env) = ground (arith, lookup_env-append k j v env)

lookup_env-set_env :
    (k j v : Str) (env env' : Variables)
    → set_env j v env ≡ some env'
    → lookup_env k env' ≡ or_else (lookup_env k env) (if str_eq j k then some v else none)
unfolding set_env
lookup_env-set_env k j v env env' h = ground (arith, lookup_env-append k j v env)

or_else-some : (o other third : Option Str) → is_some o ≡ true → or_else o other ≡ or_else o third
or_else-some none other third h = cc
or_else-some (some v) other third h = refl

or_else-set :
    (j k w : Str) (env : Variables) (later : Option Str)
    → is_some (lookup_env j env) ≡ true
    → or_else (lookup_env k env) later
      ≡ or_else (lookup_env k env) (if str_eq j k then some w else later)
or_else-set j k w env later h = elim (Bool-cases (str_eq j k)) [
  | inl same ↦
      or_else-some (lookup_env k env) _ _
        (subst (λ (s : Str). is_some (lookup_env s env) ≡ true) (str_eq-eq j k same) h)
  | inr other ↦ rw other refl
]

or_else-none : (o : Option Str) → o ≡ or_else o none
or_else-none none = refl
or_else-none (some v) = refl

or_else-pair :
    (o : Option Str) (b : Bool) (w : Str) (later : Option Str)
    → or_else (or_else o (if b then some w else none)) later
      ≡ or_else o (if b then some w else later)
or_else-pair none true w later = refl
or_else-pair none false w later = refl
or_else-pair (some v) b w later = refl

module _ (rest : Variables → Option DotEnvError × Variables) (n : ℕ) (k : Str) where
  -- A variable that is set keeps its value over a line, whatever comes of the line.
  apply_line-keeps :
      (v : Str)
      → ((e : Variables) → lookup_env k e ≡ some v → lookup_env k (rest e).1 ≡ some v)
      → (env : Variables) (x : Line) → lookup_env k env ≡ some v
      → lookup_env k (apply_line rest n env x).1 ≡ some v
  unfolding apply_line
  apply_line-keeps v keep env skip h = keep env h
  apply_line-keeps v keep env no_pair h = h
  apply_line-keeps v keep env no_key h = h
  apply_line-keeps v keep env (pair j w) h = elim (Bool-cases (is_some (lookup_env j env))) [
    | inl t ↦ rw (t, apply_line) (keep env h)
    | inr f ↦ elim (Option-cases (set_env j w env)) [
      | inl bad ↦ rw (f, apply_line) (rw bad h)
      | inr (env', good) ↦
          rw (f, apply_line)
            (rw good (keep env' (lookup_env-set_env k j w env env' good ∙ (rw h refl))))
    ]
  ]

  -- And over a line that is got over, the value is the old one, or else the line's, or else that of
  -- the lines behind it.
  apply_line-lookup :
      (later : Option Str)
      → ((e : Variables)
          → (rest e).0 ≡ none
          → lookup_env k (rest e).1 ≡ or_else (lookup_env k e) later)
      → (env : Variables) (x : Line) → (apply_line rest n env x).0 ≡ none
      → lookup_env k (apply_line rest n env x).1 ≡ or_else (lookup_env k env) (value_in k x later)
  unfolding apply_line
  apply_line-lookup later ih env skip h = ih env h
  apply_line-lookup later ih env no_pair h = absurd (cc)
  apply_line-lookup later ih env no_key h = absurd (cc)
  apply_line-lookup later ih env (pair j w) h = elim (Bool-cases (is_some (lookup_env j env))) [
    | inl t ↦ rw (t, apply_line) (ih env (rw (t, apply_line) at h) ∙ or_else-set j k w env later t)
    | inr f ↦ elim (Option-cases (set_env j w env)) [
      | inl bad ↦ absurd (cc (rw bad at (rw (f, apply_line) at h)))
      | inr (env', good) ↦
          rw (f, apply_line)
            (rw good (
              ih env' (rw good at (rw (f, apply_line) at h))
              ∙ ap (λ (o : Option Str). or_else o later) (lookup_env-set_env k j w env env' good)
              ∙ or_else-pair (lookup_env k env) (str_eq j k) w later))
    ]
  ]

load_lines-keeps :
    (ls : List Str) (n : ℕ) (env : Variables) (k v : Str)
    → lookup_env k env ≡ some v
    → lookup_env k (load_lines n ls env).1 ≡ some v
unfolding load_lines
load_lines-keeps [] n env k v h = h
load_lines-keeps (l ∷ ls) n env k v h = elim (Bool-cases (ltb (length l) buffer_size)) [
  | inl t ↦
      rw (t, load_lines)
        (apply_line-keeps (load_lines (n + 1) ls) n k v (λ e p. load_lines-keeps ls (n + 1) e k v p)
          env (read_line l) h)
  | inr f ↦ rw (f, load_lines) h
]

load_lines-lookup :
    (ls : List Str) (n : ℕ) (env : Variables) (k : Str)
    → (load_lines n ls env).0 ≡ none
    → lookup_env k (load_lines n ls env).1 ≡ or_else (lookup_env k env) (first_value k ls)
unfolding load_lines
load_lines-lookup [] n env k h = or_else-none (lookup_env k env)
load_lines-lookup (l ∷ ls) n env k h = elim (Bool-cases (ltb (length l) buffer_size)) [
  | inl t ↦
      rw (t, load_lines)
        (apply_line-lookup (load_lines (n + 1) ls) n k (first_value k ls)
          (λ e p. load_lines-lookup ls (n + 1) e k p) env (read_line l) (rw (t, load_lines) at h))
  | inr f ↦ absurd (cc (rw (f, load_lines) at h))
]

loaded :
    (ls : List Str) (env : Variables) (k : Str) (error : Option DotEnvError)
    → (load_lines 1 ls env).0 ≡ error
    → lookup_env k (load_lines 1 ls env).1
      ≡ or_else
          (lookup_env k env)
          (if is_none error then first_value k ls else lookup_env k (load_lines 1 ls env).1)
loaded ls env k none h = load_lines-lookup ls 1 env k h
loaded ls env k (some e) h = elim (Option-cases (lookup_env k env)) [
  | inl unset ↦ rw unset refl
  | inr (v, set) ↦ rw set (load_lines-keeps ls 1 env k v set)
]

-- The file of variables never changes a variable that is set, also when it is refused; and when it is
-- accepted, every other variable has the value of the first line that sets it, or is not set.
pub load_dot_env-lookup :
    (text : Str) (env : Variables) (k : Str)
    → let (error, env') = load_dot_env (content text) env in
      let lines = drop_last_empty (split_at 10 text) in
      lookup_env k env'
      ≡ or_else
          (lookup_env k env)
          (if is_none error then first_value k lines else lookup_env k env')
unfolding load_dot_env
load_dot_env-lookup text env k = loaded (drop_last_empty (split_at 10 text)) env k _ refl
