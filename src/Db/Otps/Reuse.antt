-- ===== src/Db/Otps/Reuse.antt =====
-- A request while a code is outstanding.
use tokenzy.Prelude.{
  ℕ, ◌≡◌, ◌≢◌, refl, Bool, true, none, some, List, [], ◌∷◌, arith, All, All-and, head?, Bool-cases,
  Option-cases, inl, inr, is_some,
}
use tokenzy.Prelude.Str.{Str, str_eq-eq, str_eq_refl}
use tokenzy.Prelude.Table.{select, select_row}
use tokenzy.Model.{Otp}
use tokenzy.Db.{Database, ok}
use tokenzy.Db.Listing.Order.{HasDistinctIds, order_rows-All}
use tokenzy.Db.Listing.Select.{select-All}
use tokenzy.Db.Otps.{OtpRequest, position, id_is, existing, otp_code_tx, generate_otp, outstanding}
use tokenzy.Db.Otps.Unique.{order_rows-none}

-- The row is the one that its id finds.
abbrev IsFound : List Otp → Otp → Type 0
IsFound rows o = select_row (id_is o.id) rows ≡ some o

IsFound-behind : (a o : Otp) (rows : List Otp) → a.id ≢ o.id → IsFound rows o → IsFound (a ∷ rows) o
unfolding select_row
IsFound-behind a o rows h k = ground (arith, str_eq-eq a.id o.id)

rows-IsFound : (rows : List Otp) → HasDistinctIds position rows → All (IsFound rows) rows
unfolding select_row
rows-IsFound [] h = tt
rows-IsFound (a ∷ rows) h = (
  rw (str_eq_refl a.id),
  All-and (λ o. a.id ≢ o.id) (IsFound rows) (IsFound (a ∷ rows)) rows (λ o. IsFound-behind a o rows)
      h.0 (rows-IsFound rows h.1),
)

All-head? {κ} :
    (P : Otp → Type κ) (rows : List Otp) (o : Otp) → All P rows → head? rows ≡ some o → P o
All-head? P [] o h e = absurd (cc)
All-head? P (x ∷ rows) o h e = let e' : x ≡ o = ground arith in rw e' at h.0

selected : (p : Otp → Bool) (rows : List Otp) → All (λ o. p o ≡ true) (select p rows)
unfolding select
selected p [] = tt
selected p (o ∷ rows) = elim (Bool-cases (p o)) [
  | inl e ↦ rw e (e, selected p rows)
  | inr e ↦ rw e (selected p rows)
]

select-select_row :
    (p : Otp → Bool) (rows : List Otp) → select p rows ≡ [] → select_row p rows ≡ none
unfolding select select_row
select-select_row p [] h = refl
select-select_row p (o ∷ rows) h = ground (arith, select-select_row p rows)

reissue :
    (ts env : ℕ) (id : Str) (req : OtpRequest) (d : Database) (o : Otp)
    → existing ts env req d ≡ some o
    → IsFound d.otps o
    → generate_otp ts env id req d ≡ (ok (o, true), d)
unfolding generate_otp otp_code_tx
reissue ts env id req d o e f = rw (e, generate_otp) (rw (f, otp_code_tx))

-- Where the ids are distinct, a request while some code is outstanding for its address returns such
-- a code, the stored row with its digits, says that it is not new, and changes nothing: neither
-- its lifetime nor its attempts are renewed.
pub generate_otp-reuse :
    (ts env : ℕ) (id : Str) (req : OtpRequest) (d : Database)
    → HasDistinctIds position d.otps
    → is_some (select_row (outstanding ts env req.otp_type req.identifier) d.otps) ≡ true
    → (o : Otp) × (select_row (id_is o.id) d.otps ≡ some o)
      × (outstanding ts env req.otp_type req.identifier o ≡ true)
      × (generate_otp ts env id req d ≡ (ok (o, true), d))
generate_otp-reuse ts env id req d h s = elim (Option-cases (existing ts env req d)) [
  | inl e ↦ absurd (
      ground (
        arith,
        select-select_row (outstanding ts env req.otp_type req.identifier) d.otps
            (order_rows-none _ e),
      ))
  | inr (o, e) ↦
      let p = outstanding ts env req.otp_type req.identifier in
      let f =
        All-head? (IsFound d.otps) _ o
          (order_rows-All position _ (select p d.otps)
            (select-All _ p d.otps (rows-IsFound d.otps h)))
          e in
      let live =
        All-head? (λ o. p o ≡ true) _ o
          (order_rows-All position _ (select p d.otps) (selected p d.otps)) e in
      (o, f, live, reissue ts env id req d o e f)
]
