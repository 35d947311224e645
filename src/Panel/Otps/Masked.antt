-- ===== src/Panel/Otps/Masked.antt =====
-- Which answers of the code pages carry a code.
use tokenzy.Prelude.{ℕ, ◌≡◌, refl, sym, none, some, List, [], ◌∷◌, map, arith, All}
use tokenzy.Prelude.Str.{Str}
use tokenzy.Model.{Otp}
use tokenzy.Db.{Database, Result, ok, err}
use tokenzy.Db.Otps as Store
use tokenzy.Db.Otps.Filter.{list_otps}
use tokenzy.Panel.{
  Request, Answer, internal_error, Scope, Resolved, found, resolve_env, unix, reading, missing,
  failed,
}
use tokenzy.Panel.Shows.{Shows, Shows-reading, Shows-writing, Shows-settled, Shows-listing}
use tokenzy.Panel.Otps.{
  Site, OtpRow, OtpFilterState, OtpsView, OtpsQuery, query_of, otps_view, otp_row_for,
}
use tokenzy.Panel.Otps.Actions.{
  resolve_otp, row_group, otps_page, otp_rows, otp_detail, otp_row, revoke_otp, delete_otp,
  render_otps_panel,
}

-- A row holds no code: neither in the row of the table nor in its detail.
abbrev pub IsMasked : OtpRow → Type 0
IsMasked row = (row.otp.code ≡ []) × ((elim row.detail [ none ↦ [] | some d ↦ d.code ]) ≡ [])

-- A whole panel: no row does, and there is no new code.
abbrev pub IsClean : OtpsView → Type 0
IsClean view = All IsMasked view.rows × (view.new_code ≡ [])

rows-IsMasked :
    (site : Site) (scope : Scope) (now : ℕ) (filter : OtpFilterState) (os : List Otp)
    → All IsMasked
        (map (λ (o : Otp). otp_row_for site.print scope o now filter) (map Store.scan_otp os))
unfolding otp_row_for Store.scan_otp
rows-IsMasked site scope now filter [] = tt
rows-IsMasked site scope now filter (o ∷ os) =
    ((refl, refl), rows-IsMasked site scope now filter os)

otps_view-IsClean :
    (site : Site) (r : Request) (q : OtpsQuery) (d : Database)
    → q.new_code ≡ []
    → IsClean (otps_view site r q d)
unfolding otps_view list_otps
otps_view-IsClean site r q d h = (rows-IsMasked site q.scope (unix r) _ _, h)

get_otp-IsMasked :
    (env : ℕ) (id : Str) (d : Database) (o : Otp) → Store.get_otp env id d ≡ ok o → o.code ≡ []
unfolding Store.get_otp Store.scan_otp
get_otp-IsMasked env id d o h = ground arith

resolve_otp-get :
    (r : Request) (d : Database) (s : Scope) (o : Otp)
    → resolve_otp r d ≡ found (s, o)
    → Store.get_otp s.env.id r.id d ≡ ok o
unfolding resolve_otp
resolve_otp-get r d s o h = ground arith

Shows-resolved :
    (P : OtpRow → Type 0) (r : Request) (d : Database) (x : Resolved (Scope × Otp))
    (k : Scope × Otp → Answer OtpRow)
    → x ≡ resolve_otp r d
    → ((s : Scope) (o : Otp) → o.code ≡ [] → Shows P (k (s, o)))
    → Shows P (reading x k)
Shows-resolved P r d (found (s, o)) k e h =
    h s o (get_otp-IsMasked _ _ d o (resolve_otp-get r d s o (sym e)))
Shows-resolved P r d missing k e h = tt
Shows-resolved P r d failed k e h = tt

Shows-reread :
    (x : Result Otp) (k : Otp → OtpRow)
    → ((o : Otp) → x ≡ ok o → IsMasked (k o))
    → Shows IsMasked (elim x [ err _ ↦ internal_error | ok o ↦ row_group (k o) ])
Shows-reread (ok o) k h = h o refl
Shows-reread (err e) k h = tt

-- Outside of the answers that issue or reveal a code, the panel sends none: every row of a listing,
-- of a page behind it, of an opened or closed row, of the row behind a revocation and of the listing
-- behind a deletion has an empty code and an empty detail, and no panel has a new code in it.
pub otps-IsMasked :
    (site : Site) (r : Request) (filter : OtpFilterState) (cursor : Str) (d : Database)
    → Shows IsClean (otps_page site r filter d)
      × Shows IsClean (otp_rows site r filter cursor d)
      × Shows IsMasked (otp_detail site r filter d)
      × Shows IsMasked (otp_row site r filter d)
      × Shows IsMasked (revoke_otp site r filter d).0
      × Shows IsClean (delete_otp site r filter d).0
unfolding otps_page otp_rows otp_detail otp_row revoke_otp delete_otp otp_row_for render_otps_panel
otps-IsMasked site r filter cursor d = (
  Shows-reading IsClean (resolve_env r d) _
      λ s. Shows-listing IsClean r _ _ _ (otps_view-IsClean site r (query_of s filter) d refl),
  Shows-reading IsClean (resolve_env r d) _
      λ s. otps_view-IsClean site r (record (query_of s filter) { cursor = cursor }) d refl,
  Shows-resolved IsMasked r d (resolve_otp r d) _ refl λ s o h. (h, refl),
  Shows-resolved IsMasked r d (resolve_otp r d) _ refl λ s o h. (h, refl),
  Shows-writing IsMasked (resolve_otp r d) d _ λ x.
      Shows-settled IsMasked (Store.revoke_otp (unix r) x.0.env.id x.1.id d).0 _ _ (
        Shows-reread
          (Store.get_otp x.0.env.id x.1.id (Store.revoke_otp (unix r) x.0.env.id x.1.id d).1) _
          λ o h. (get_otp-IsMasked _ _ _ o h, refl)),
  Shows-writing IsClean (resolve_env r d) d _ λ s.
      Shows-settled IsClean (Store.delete_otp s.env.id r.id d).0 _ _
        (otps_view-IsClean site r (query_of s filter) (Store.delete_otp s.env.id r.id d).1 refl),
)
