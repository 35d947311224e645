-- ===== src/Db/Projects/RowLinks.antt =====
-- Every other row keeps its parent under the queries that write it.
use tokenzy.Prelude.{
  ℕ, ◌≡◌, refl, true, not, List, [], ◌∷◌, ◌++◌, arith, is_some, is_none, ◌==◌, ◌||◌, All,
  All-append, All-map, Bool-cases, Option-cases, inl, inr,
}
use tokenzy.Prelude.Str.{Str, str_eq}
use tokenzy.Prelude.Table.{
  select_row, next_rowid, All-update_where, All-delete_where, All-delete_limit,
}
use tokenzy.Model.{Project, Environment, ApiKey, Token, Otp, valid_scope}
use tokenzy.Db.{Database, WebhookRow}
use tokenzy.Db.Projects.{create_project, create_environment, env_is, default_environment}
use tokenzy.Db.Keys
use tokenzy.Db.Keys.{create_api_key, new_key, key_is, revoke_api_key, delete_api_key}
use tokenzy.Db.Otps.{
  OtpRequest, id_is, existing, otp_code_tx, new_otp, insert_otp, generate_otp, matching,
  outstanding, consume, count_attempt, validate_otp, revocable, cancel, revoke_otp, delete_otp,
  dead, delete_dead_otps,
}
use tokenzy.Db.Otps.Trace.{OtpCall, generate, validate, revoke, delete, sweep, step}
use tokenzy.Db.Otps
use tokenzy.Db.Projects.Links.{has_parent, IsLinked, IsIntact, IsIntactBelow}
use tokenzy.Db.Projects.TokenLinks.{parent-append, parent-new}

module _ (d : Database) (intact : IsIntact d) where
  abbrev InEnv : Otp → Type 0
  InEnv o =
      has_parent (λ (e : Environment). e.id) (λ (o : Otp). o.environment_id) d.environments o ≡ true

  put_otps : (rows : List Otp) → All InEnv rows → IsIntact (record d { otps = rows })
  put_otps rows h = let (e, (k, t, o, w, x)) = intact in (e, (k, t, h, w, x))

  abbrev otps_linked : All InEnv d.otps
  otps_linked = let (e, (k, t, o, w, x)) = intact in o

  generate_otp-IsIntact :
      (ts env : ℕ) (id : Str) (req : OtpRequest) → IsIntact (generate_otp ts env id req d).1
  unfolding generate_otp insert_otp
  generate_otp-IsIntact ts env id req = elim (Option-cases (existing ts env req d)) [
    | inl e ↦
        elim (Bool-cases
          (is_some (select_row (id_is id) d.otps) || not (Otps.env_exists env d.environments))) [
            | inl f ↦ rw (e, generate_otp) (rw f intact)
            | inr f ↦
                rw (e, generate_otp)
                  (rw f (put_otps _ (All-append InEnv d.otps _ otps_linked (ground arith, tt))))
          ]
    | inr (o, e) ↦ elim (Option-cases (otp_code_tx o.id d.otps)) [
      | inl f ↦ rw (e, generate_otp) (rw f intact)
      | inr (code, f) ↦ rw (e, generate_otp) (rw f intact)
    ]
  ]

  validate_otp-IsIntact :
      (ts env : ℕ) (otp_type identifier code : Str)
      → IsIntact (validate_otp ts env otp_type identifier code d).1
  unfolding validate_otp
  validate_otp-IsIntact ts env otp_type identifier code =
      elim (Option-cases (select_row (matching ts env otp_type identifier code) d.otps)) [
        | inl e ↦
            rw (e, validate_otp)
              (put_otps _ (
                All-update_where InEnv (outstanding ts env otp_type identifier) count_attempt d.otps
                  (λ o _ k. k) otps_linked))
        | inr (o, e) ↦
            rw (e, validate_otp)
              (put_otps _ (
                All-update_where InEnv (matching ts env otp_type identifier code) (consume ts)
                  d.otps (λ o _ k. k) otps_linked))
      ]

  revoke_otp-IsIntact : (ts env : ℕ) (id : Str) → IsIntact (revoke_otp ts env id d).1
  unfolding revoke_otp
  revoke_otp-IsIntact ts env id = elim (Option-cases (select_row (revocable env id) d.otps)) [
    | inl e ↦ rw (e, revoke_otp) intact
    | inr (o, e) ↦
        rw (e, revoke_otp)
          (put_otps _
            (All-update_where InEnv (revocable env id) (cancel ts) d.otps (λ o _ k. k) otps_linked))
  ]

  pub otp_step-IsIntact : (ts : ℕ) (c : OtpCall) → IsIntact (step ts c d)
  unfolding step delete_otp delete_dead_otps
  otp_step-IsIntact ts (generate env id req) = generate_otp-IsIntact ts env id req
  otp_step-IsIntact ts (validate env otp_type identifier code) =
      validate_otp-IsIntact ts env otp_type identifier code
  otp_step-IsIntact ts (revoke env id) = revoke_otp-IsIntact ts env id
  otp_step-IsIntact ts (delete env id) =
      put_otps _ (All-delete_where InEnv (Otps.by_id env id) d.otps otps_linked)
  otp_step-IsIntact ts (sweep before n) =
      put_otps _ (All-delete_limit InEnv n (dead before) d.otps otps_linked)

  -- A new environment takes no parent away.
  more_environments :
      (e : Environment)
      → IsIntactBelow d
      → IsIntactBelow (record d { environments = d.environments ++ e ∷ [] })
  more_environments e (k, t, o, w, x) = (
    All-map _ _ d.api_keys
        (λ r.
          parent-append (λ (e : Environment). e.id) (λ (k : ApiKey). k.environment_id) e
            d.environments r)
        k,
    All-map _ _ d.tokens
        (λ r.
          parent-append (λ (e : Environment). e.id) (λ (k : Token). k.environment_id) e
            d.environments r)
        t,
    All-map _ _ d.otps
        (λ r.
          parent-append (λ (e : Environment). e.id) (λ (k : Otp). k.environment_id) e d.environments
            r)
        o,
    All-map _ _ d.webhooks
        (λ r.
          parent-append (λ (e : Environment). e.id) (λ (k : WebhookRow). k.environment_id) e
            d.environments r)
        w,
    x,
  )

  pub create_project-IsIntact :
      (ts : ℕ) (slug name : Str) → IsIntact (create_project ts slug name d).1
  unfolding create_project
  create_project-IsIntact ts slug name =
      elim (Bool-cases (is_some (select_row (λ (p : Project). str_eq p.slug slug) d.projects))) [
        | inl e ↦ rw (e, create_project) intact
        | inr e ↦
            let added : Environment = record {
              id = next_rowid (λ (e : Environment). e.id) d.environments;
              project_id = next_rowid (λ (p : Project). p.id) d.projects;
              slug = default_environment;
              created_at = ts;
            } in
            rw (e, create_project)
              (
                All-append _ d.environments _
                    (All-map _ _ d.environments
                      (λ r.
                        parent-append (λ (p : Project). p.id) (λ (e : Environment). e.project_id) _
                          d.projects r)
                      intact.0)
                    (
                      parent-new (λ (p : Project). p.id) (λ (e : Environment). e.project_id) _
                          d.projects added refl,
                      tt,
                    ),
                more_environments _ intact.1,
              )
      ]

  pub create_environment-IsIntact :
      (ts project : ℕ) (slug : Str) → IsIntact (create_environment ts project slug d).1
  unfolding create_environment
  create_environment-IsIntact ts project slug =
      elim (Bool-cases (is_some (select_row (env_is project slug) d.environments))) [
        | inl e ↦ rw (e, create_environment) intact
        | inr e ↦
            elim (Bool-cases (is_none (select_row (λ (p : Project). p.id == project) d.projects))) [
              | inl f ↦ rw (e, create_environment) (rw f intact)
              | inr f ↦
                  rw (e, create_environment)
                    (rw f (
                      All-append _ d.environments _ intact.0 (ground arith, tt),
                      more_environments _ intact.1,
                    ))
            ]
      ]

  put_keys :
      (rows : List ApiKey)
      → IsLinked (λ (e : Environment). e.id) (λ (k : ApiKey). k.environment_id) d.environments rows
      → IsIntact (record d { api_keys = rows })
  put_keys rows h = let (e, (k, t, o, w, x)) = intact in (e, (h, t, o, w, x))

  pub create_api_key-IsIntact :
      (ts env : ℕ) (hash prefix scope label : Str)
      → IsIntact (create_api_key ts env hash prefix scope label d).1
  unfolding create_api_key
  create_api_key-IsIntact ts env hash prefix scope label =
      elim (Bool-cases (not (valid_scope scope))) [
        | inl e ↦ rw (e, create_api_key) intact
        | inr e ↦
            elim (Bool-cases
              (is_some (select_row (λ (k : ApiKey). str_eq k.key_hash hash) d.api_keys))) [
                | inl f ↦ rw (e, create_api_key) (rw f intact)
                | inr f ↦
                    elim (Bool-cases
                      (is_none (select_row (λ (e : Environment). e.id == env) d.environments))) [
                        | inl g ↦ rw (e, create_api_key) (rw f (rw g intact))
                        | inr g ↦
                            rw (e, create_api_key)
                              (rw f (
                                rw g (
                                  put_keys _
                                    (All-append _ d.api_keys _ intact.1.0 (ground arith, tt)))))
                      ]
              ]
      ]

  pub revoke_api_key-IsIntact : (ts id env : ℕ) → IsIntact (revoke_api_key ts id env d).1
  unfolding revoke_api_key
  revoke_api_key-IsIntact ts id env =
      put_keys _ (All-update_where _ (Keys.revocable id env) _ d.api_keys (λ k _ h. h) intact.1.0)

  pub delete_api_key-IsIntact : (id env : ℕ) → IsIntact (delete_api_key id env d).1
  unfolding delete_api_key
  delete_api_key-IsIntact id env =
      put_keys _ (All-delete_where _ (key_is id env) d.api_keys intact.1.0)
