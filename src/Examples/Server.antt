-- ===== src/Examples/Server.antt =====
-- The start of the server at concrete inputs.
use tokenzy.Prelude.{
  IsIn, ◌≡◌, ◌^◌, refl, ap, Bool, true, false, Option, some, none, List, [], ◌∷◌, ◌++◌, map, arith,
  All, length, is_none, not, ◌||◌, if◌then◌else◌, ℕ, zero, suc, ◌+◌, ◌*◌, ◌/◌, ◌-◌, ◌==◌, ◌≤◌, ◌<◌,
}
use tokenzy.Prelude.Str.{Str, codes, str_eq}
use tokenzy.Prelude.Text.{trim_space, strip, leading_space, trailing_space, split_at}
use tokenzy.Prelude.Table.{select_row, count_where, sort_by, insert_by}
use tokenzy.Model.{ApiKey, scope_consume, scope_write, scope_allows}
use tokenzy.Auth.Keys.{granted}
use tokenzy.Auth.Passwords.{Crypto, hash_password, verify_password}
use tokenzy.Auth.Passwords.RoundTrip.{IsLawful, key_of, verify_password-hash_password}
use tokenzy.Db.{Database}
use tokenzy.Db.Keys.{new_key}
use tokenzy.Db.Migrate.{Migration, Applied, done, migrate, split_statements}
use tokenzy.Db.Migrate.Statements.{
  Piece, char, literal, comment, script, texts, split_statements-script,
}
use tokenzy.Db.Migrate.Again.{migrate-migrate}
use tokenzy.Server.Variables.{
  Variables, lookup_env, get_env, content, load_dot_env, drop_last_empty,
}
use tokenzy.Server.Variables.DotEnv.{first_value, or_else, load_dot_env-lookup}
use tokenzy.Server.Accounts.{bootstrap_admin, env_admin_username, env_admin_password}
use tokenzy.Server.Accounts.Kept.{Leaves, password_in, bootstrap_admin-Leaves}
use tokenzy.Server.Start.{consume_token, required_scope, authorise}
use tokenzy.Server.Start.Scopes.{for_consumers, for_writers, authorise-granted}
use tokenzy.Examples.Tokens.{store}
use tokenzy.Examples.Api.{prod}

-- CREATE 'a;b' -- drop; and a second statement, which is blank.
abbrev statement : List Piece
statement = char b'C' ∷ char b' ' ∷ literal (codes "a;b") ∷ char b' ' ∷ comment (codes "x; y") ∷ []

split_statements-script_example :
    split_statements (script (statement ∷ (char b' ' ∷ []) ∷ []) (char b'D' ∷ []))
    ≡ texts (statement ∷ (char b' ' ∷ []) ∷ (char b'D' ∷ []) ∷ [])
split_statements-script_example =
    split_statements-script (statement ∷ (char b' ' ∷ []) ∷ []) (char b'D' ∷ []) (ground arith)

-- What is left of it.
statement_texts :
    split_statements (script (statement ∷ (char b' ' ∷ []) ∷ []) (char b'D' ∷ []))
    ≡ codes "C 'a;b'" ∷ codes "D" ∷ []
unfolding split_statements tokenzy.Db.Migrate.split_from tokenzy.Db.Migrate.flush trim_space
statement_texts = refl

abbrev count_statement : Str → ℕ → Option ℕ
count_statement stmt n = some (n + 1)

abbrev files : List Migration
files =
    record { name = codes "002"; content = codes "A;B" }
    ∷ record { name = codes "001"; content = codes "C" }
    ∷ []

abbrev applied : List Applied
applied =
    record { name = codes "001"; applied_at = 10 }
    ∷ record { name = codes "002"; applied_at = 10 }
    ∷ []

migrate-migrate_example : migrate count_statement 20 files (3, applied) ≡ done (3, applied)
unfolding migrate tokenzy.Db.Migrate.migrate_files tokenzy.Db.Migrate.is_applied
    tokenzy.Db.Migrate.exec_all split_statements tokenzy.Db.Migrate.split_from
    tokenzy.Db.Migrate.flush trim_space sort_by insert_by tokenzy.Prelude.Str.str_lt str_eq
    count_where
migrate-migrate_example = migrate-migrate count_statement 10 20 files 0 3 [] applied refl

abbrev dot_env : Str
dot_env = codes "# a comment" ++ (10 ∷ codes "export A=1" ++ (10 ∷ codes "A = 'two'" ++ (10 ∷ [])))

load_dot_env-lookup_example :
    lookup_env (codes "A") (load_dot_env (content dot_env) []).1
    ≡ or_else (lookup_env (codes "A") []) (
        if is_none (load_dot_env (content dot_env) []).0
        then first_value (codes "A") (drop_last_empty (split_at 10 dot_env))
        else lookup_env (codes "A") (load_dot_env (content dot_env) []).1)
load_dot_env-lookup_example = load_dot_env-lookup dot_env [] (codes "A")

abbrev admin_env : Variables
admin_env = (env_admin_username, codes "ada") ∷ (env_admin_password, codes "secret-word") ∷ []

bootstrap_admin-Leaves_example :
    Leaves
      (λ p. some (codes "#" ++ p))
      (trim_space (get_env env_admin_username admin_env))
      (password_in (λ f. none) admin_env)
      store
      (bootstrap_admin (λ f. none) (λ p. some (codes "#" ++ p)) 20 admin_env store).0
      (bootstrap_admin (λ f. none) (λ p. some (codes "#" ++ p)) 20 admin_env store).1
bootstrap_admin-Leaves_example =
    bootstrap_admin-Leaves (λ f. none) (λ p. some (codes "#" ++ p)) 20 admin_env store

abbrev hash_key : Str → Str
hash_key s = 35 ∷ s

abbrev consumer : ApiKey
consumer = new_key 5 7 1 (codes "#k") (codes "k") scope_consume []

abbrev guarded : Database
guarded = record store { api_keys = consumer ∷ []; environments = prod ∷ [] }

authorise-granted_example :
    IsIn consumer guarded.api_keys
    × IsIn prod guarded.environments
    × (consumer.key_hash ≡ hash_key (trim_space (codes " k")))
    × (is_none consumer.revoked_at ≡ true)
    × (prod.id ≡ consumer.environment_id)
    × (scope_allows consumer.scope (required_scope consume_token) ≡ true)
    × ((not (str_eq consumer.scope scope_consume) || for_consumers consume_token) ≡ true)
    × ((not (str_eq consumer.scope scope_write) || for_writers consume_token) ≡ true)
unfolding authorise tokenzy.Auth.Keys.require tokenzy.Auth.Keys.check_environment
    tokenzy.Db.Keys.lookup_active_api_key tokenzy.Db.Projects.get_environment_by_id select_row
    trim_space strip leading_space trailing_space scope_allows tokenzy.Model.scope_rank str_eq
authorise-granted_example =
    authorise-granted hash_key consume_token (codes " k") guarded consumer prod refl

-- Keys that are the password's bytes, cut or filled up, and an encoding into odd bytes.
abbrev fit : ℕ → Str → Str
fit zero s = []
fit (suc n) [] = 0 ∷ fit n []
fit (suc n) (c ∷ s) = c ∷ fit n s

abbrev odd : Str → Str
odd [] = []
odd (c ∷ s) = (c * 2 + 1) ∷ odd s

abbrev halved : Str → Str
halved [] = []
halved (c ∷ s) = (c / 2) ∷ halved s

abbrev crypto : Crypto
crypto = record {
  id_key = λ password salt time memory threads n. fit n password;
  encode = odd;
  decode = λ s. some (halved s);
}

length-fit : (n : ℕ) (s : Str) → length (fit n s) ≡ n
length-fit zero s = refl
length-fit (suc n) [] = omega (arith, length-fit n [])
length-fit (suc n) (c ∷ s) = omega (arith, length-fit n s)

halved-odd : (s : Str) → halved (odd s) ≡ s
halved-odd [] = refl
halved-odd (c ∷ s) = ground (arith, halved-odd s)

odd-ne : (s : Str) → All (λ (b : ℕ). (b == b'$') ≡ false) (odd s)
odd-ne [] = tt
odd-ne (c ∷ s) = (ground arith, odd-ne s)

crypto-IsLawful : IsLawful crypto
crypto-IsLawful = record {
  decode_encode = λ s. ap (λ (t : Str). some t) (halved-odd s);
  no_dollar = odd-ne;
  key_length = λ password salt time memory threads n. length-fit n password;
}

abbrev hashed : Str
hashed =
    codes "$argon2id$v=19$m=65536,t=3,p=2$"
    ++ (odd (1 ∷ 2 ∷ []) ++ (b'$' ∷ odd (fit 32 (codes "secret"))))

verify_password-hash_password_example :
    (verify_password crypto (codes "guess") hashed
      ≡ some (
          str_eq
            (key_of crypto (codes "guess") (1 ∷ 2 ∷ []))
            (key_of crypto (codes "secret") (1 ∷ 2 ∷ []))))
    × (verify_password crypto (codes "secret") hashed ≡ some true)
unfolding hash_password tokenzy.Auth.Passwords.parameters tokenzy.Auth.Passwords.version_field
    tokenzy.Prelude.Decimal.show_nat
verify_password-hash_password_example =
    verify_password-hash_password crypto (1 ∷ 2 ∷ []) (codes "secret") hashed (codes "guess")
      crypto-IsLawful refl
