-- ===== src/Panel/Tokens/Masked.antt =====
-- Which answers of the token pages carry a plaintext token.
use tokenzy.Prelude.{ℕ, ◌≡◌, refl, none, some, List, [], ◌∷◌, map, arith, All}
use tokenzy.Prelude.Str.{Str}
use tokenzy.Model.{Token}
use tokenzy.Db.{Database, Result, ok, err, not_found, duplicate, failure}
use tokenzy.Db.Tokens as Store
use tokenzy.Panel.{Request, unknown, internal_error, Scope, resolve_env, unix}
use tokenzy.Panel.Shows.{Shows, Shows-reading, Shows-writing, Shows-settled, Shows-listing}
use tokenzy.Panel.Tokens.{
  Site, TokenRow, TokensView, TokensQuery, query_of, tokens_view, token_row_for,
}
use tokenzy.Panel.Tokens.Actions.{
  row_group, tokens_page, token_rows, token_detail, token_row, revoke_token, delete_token,
  render_tokens_panel,
}

-- A row holds no plaintext: neither its token nor its detail.
abbrev pub IsMasked : TokenRow → Type 0
IsMasked row = (row.token.value ≡ []) × ((elim row.detail [ none ↦ [] | some d ↦ d.value ]) ≡ [])

-- A whole panel: no row does, and there is no new token.
abbrev pub IsClean : TokensView → Type 0
IsClean view = All IsMasked view.rows × (view.new_token ≡ [])

rows-IsMasked :
    (site : Site) (scope : Scope) (now : ℕ) (filter : Str) (ts : List Token)
    → All IsMasked
        (map (λ (t : Token). token_row_for site.print scope t now filter) (map Store.scan_token ts))
unfolding token_row_for Store.scan_token
rows-IsMasked site scope now filter [] = tt
rows-IsMasked site scope now filter (t ∷ ts) =
    ((refl, refl), rows-IsMasked site scope now filter ts)

tokens_view-IsClean :
    (site : Site) (r : Request) (q : TokensQuery) (d : Database)
    → q.new_token ≡ []
    → IsClean (tokens_view site r q d)
unfolding tokens_view Store.list_tokens
tokens_view-IsClean site r q d h = (rows-IsMasked site q.scope (unix r) _ _, h)

get_token-IsMasked :
    (env : ℕ) (id : Str) (d : Database) (t : Token) → Store.get_token env id d ≡ ok t → t.value ≡ []
unfolding Store.get_token Store.scan_token
get_token-IsMasked env id d t h = ground arith

Shows-reread :
    (x : Result Token) (k : Token → TokenRow)
    → ((t : Token) → x ≡ ok t → IsMasked (k t))
    → Shows IsMasked
        (elim x [ err not_found ↦ unknown | err _ ↦ internal_error | ok t ↦ row_group (k t) ])
Shows-reread (ok t) k h = h t refl
Shows-reread (err not_found) k h = tt
Shows-reread (err duplicate) k h = tt
Shows-reread (err failure) k h = tt

-- Outside of the answers that issue or reveal a token, the panel sends no plaintext: every row of a
-- listing, of a page behind it, of an opened or closed row, of the row behind a revocation and of the
-- listing behind a deletion has an empty value and an empty detail value, and no panel has a new
-- token in it.
pub panel-IsMasked :
    (site : Site) (r : Request) (status cursor : Str) (d : Database)
    → Shows IsClean (tokens_page site r status d)
      × Shows IsClean (token_rows site r status cursor d)
      × Shows IsMasked (token_detail site r status d)
      × Shows IsMasked (token_row site r status d)
      × Shows IsMasked (revoke_token site r status d).0
      × Shows IsClean (delete_token site r status d).0
unfolding tokens_page token_rows token_detail token_row revoke_token delete_token token_row_for
    render_tokens_panel
panel-IsMasked site r status cursor d = (
  Shows-reading IsClean (resolve_env r d) _
      λ s. Shows-listing IsClean r _ _ _ (tokens_view-IsClean site r (query_of s status) d refl),
  Shows-reading IsClean (resolve_env r d) _
      λ s. tokens_view-IsClean site r (record (query_of s status) { cursor = cursor }) d refl,
  Shows-reading IsMasked (resolve_env r d) _ λ s.
      Shows-reread (Store.get_token s.env.id r.id d) _ λ t h. (get_token-IsMasked _ _ _ t h, refl),
  Shows-reading IsMasked (resolve_env r d) _ λ s.
      Shows-reread (Store.get_token s.env.id r.id d) _ λ t h. (get_token-IsMasked _ _ _ t h, refl),
  Shows-writing IsMasked (resolve_env r d) d _ λ s.
      Shows-settled IsMasked (Store.revoke_token (unix r) s.env.id r.id d).0 _ _ (
        Shows-reread (Store.get_token s.env.id r.id (Store.revoke_token (unix r) s.env.id r.id d).1)
          _ λ t h. (get_token-IsMasked _ _ _ t h, refl)),
  Shows-writing IsClean (resolve_env r d) d _ λ s.
      Shows-settled IsClean (Store.delete_token s.env.id r.id d).0 _ _ (
        tokens_view-IsClean site r (query_of s status) (Store.delete_token s.env.id r.id d).1 refl),
)
