-- ===== src/Panel/Tokens/Chips.antt =====
-- The filter chips over the token listing.
use tokenzy.Prelude.{
  true, false, ◌++◌, ◌||◌, not, ◌∙◌, sym, subst, Bool-cases, inl, inr, ℕ, ◌+◌, ◌≡◌, refl, ap, Bool,
  Option, none, some, List, [], ◌∷◌, map, arith, ◌==◌, ◌&&◌, is_none, if◌then◌else◌,
}
use tokenzy.Prelude.Str.{Str, codes, str_eq, str_eq-eq}
use tokenzy.Prelude.Table.{count_where}
use tokenzy.Model.{Token}
use tokenzy.Token.Status.{
  Status, active, expired, exhausted, revoked, status_name, status_of, statuses, find_status,
}
use tokenzy.Db.{Database}
use tokenzy.Db.Tokens.{count_tokens_by_status, status_predicate}
use tokenzy.Db.Tokens.StatusFilter.{count_tokens_by_status-total}
use tokenzy.Panel.{Request, unix}
use tokenzy.Panel.Links.{StatusChip, total, query_escape, unreserved}
use tokenzy.Panel.Tokens.{
  Site, TokensQuery, tokens_view, filter_of, filter_name, status_chip, all_chip, tokens_base,
}

-- The tokens of the environment with a status, by the rule that the Go code derives it with.
abbrev pub with_status : ℕ → ℕ → Status → Token → Bool
with_status now env s t =
    t.environment_id == env && str_eq (status_name (status_of t now)) (status_name s)

same_status :
    (now : ℕ) (s : Status) (t : Token)
    → status_predicate (some s) now t ≡ str_eq (status_name (status_of t now)) (status_name s)
unfolding status_predicate status_of str_eq
same_status now active t = ground arith
same_status now expired t = ground arith
same_status now exhausted t = ground arith
same_status now revoked t = ground arith

count-with_status :
    (now env : ℕ) (s : Status) (ts : List Token)
    → count_where (λ (t : Token). t.environment_id == env && status_predicate (some s) now t) ts
      ≡ count_where (with_status now env s) ts
unfolding count_where
count-with_status now env s [] = refl
count-with_status now env s (t ∷ ts) = rw (same_status now s t) (
    ap (λ (n : ℕ). (if with_status now env s t then 1 else 0) + n) (count-with_status now env s ts))

abbrev pub counts_of : List StatusChip → List ℕ
counts_of = map (λ (c : StatusChip). c.count)

abbrev pub active_of : List StatusChip → List Bool
active_of = map (λ (c : StatusChip). c.is_active)

abbrev pub names_of : List StatusChip → List (Str × Str)
names_of = map (λ (c : StatusChip). (c.status, c.label))

abbrev pub addresses_of : List StatusChip → List Str
addresses_of = map (λ (c : StatusChip). c.url)

-- The flags of the chips for a filter: that of the filter, the first where there is none.
abbrev pub flags : Option Status → List Bool
flags none = true ∷ false ∷ false ∷ false ∷ false ∷ []
flags (some active) = false ∷ true ∷ false ∷ false ∷ false ∷ []
flags (some expired) = false ∷ false ∷ true ∷ false ∷ false ∷ []
flags (some exhausted) = false ∷ false ∷ false ∷ true ∷ false ∷ []
flags (some revoked) = false ∷ false ∷ false ∷ false ∷ true ∷ []

flags-active :
    (filter : Option Status)
    → is_none filter ∷ map (λ (s : Status). str_eq (filter_name filter) (status_name s)) statuses
      ≡ flags filter
unfolding str_eq
flags-active none = refl
flags-active (some active) = refl
flags-active (some expired) = refl
flags-active (some exhausted) = refl
flags-active (some revoked) = refl

-- The flags by the text of the query.
abbrev pub flags_for : Str → List Bool
flags_for s =
    let a = str_eq s (codes "active") in
    let e = str_eq s (codes "expired") in
    let x = str_eq s (codes "exhausted") in
    let r = str_eq s (codes "revoked") in not (a || (e || (x || r))) ∷ a ∷ e ∷ x ∷ r ∷ []

flags-filter_of : (s : Str) → flags (filter_of s) ≡ flags_for s
unfolding find_status str_eq
flags-filter_of [] = refl
flags-filter_of (c ∷ s) = elim (Bool-cases (str_eq (c ∷ s) (codes "active"))) [
  | inl a ↦
      subst (λ t. flags (filter_of t) ≡ flags_for t) (sym (str_eq-eq (c ∷ s) (codes "active") a))
        refl
  | inr a ↦ elim (Bool-cases (str_eq (c ∷ s) (codes "expired"))) [
    | inl e ↦
        subst (λ t. flags (filter_of t) ≡ flags_for t) (sym (str_eq-eq (c ∷ s) (codes "expired") e))
          refl
    | inr e ↦ elim (Bool-cases (str_eq (c ∷ s) (codes "exhausted"))) [
      | inl x ↦
          subst (λ t. flags (filter_of t) ≡ flags_for t)
            (sym (str_eq-eq (c ∷ s) (codes "exhausted") x)) refl
      | inr x ↦ elim (Bool-cases (str_eq (c ∷ s) (codes "revoked"))) [
        | inl r ↦
            subst (λ t. flags (filter_of t) ≡ flags_for t)
              (sym (str_eq-eq (c ∷ s) (codes "revoked") r)) refl
        | inr r ↦ rw a (rw e (rw x (rw r refl)))
      ]
    ]
  ]
]

-- For every query there are five chips: "All", and one for each of the statuses, which it names and
-- is labelled with. The first counts the tokens of the environment, which is the total that the page
-- shows, and each other one those with the status that it names, by the rule of `StatusOf`. Each
-- leads to the listing of the environment filtered by its status, the first to all of it, and the
-- one that the query names is active, the first where it names no status.
pub tokens_view-chips :
    (site : Site) (r : Request) (q : TokensQuery) (d : Database)
    → let view = tokens_view site r q d in
      let env = q.scope.env.id in
      let on_env = count_where (λ (t : Token). t.environment_id == env) d.tokens in
      (names_of view.chips
        ≡ ([], codes "All")
          ∷ (codes "active", codes "active")
          ∷ (codes "expired", codes "expired")
          ∷ (codes "exhausted", codes "exhausted")
          ∷ (codes "revoked", codes "revoked")
          ∷ [])
      × (counts_of view.chips
          ≡ view.total
            ∷ map
                (λ (s : Status). count_where (with_status (unix r) env s) d.tokens)
                (active ∷ expired ∷ exhausted ∷ revoked ∷ []))
      × (view.total ≡ on_env)
      × (addresses_of view.chips
          ≡ tokens_base q.scope
            ∷ map
                (λ (s : Str). tokens_base q.scope ++ codes "?status=" ++ s)
                (codes "active" ∷ codes "expired" ∷ codes "exhausted" ∷ codes "revoked" ∷ []))
      × (active_of view.chips ≡ flags_for q.status)
unfolding tokens_view status_chip all_chip total count_tokens_by_status query_escape unreserved
tokens_view-chips site r q d = (
  refl,
  λ i.
      (tokens_view site r q d).total
      ∷ count-with_status (unix r) q.scope.env.id active d.tokens i
      ∷ count-with_status (unix r) q.scope.env.id expired d.tokens i
      ∷ count-with_status (unix r) q.scope.env.id exhausted d.tokens i
      ∷ count-with_status (unix r) q.scope.env.id revoked d.tokens i
      ∷ [],
  omega (arith, count_tokens_by_status-total (unix r) q.scope.env.id d),
  refl,
  flags-active (filter_of q.status) ∙ flags-filter_of q.status,
)
