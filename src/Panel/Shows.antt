-- ===== src/Panel/Shows.antt =====
-- A predicate of the view behind an answer, and how the panel's helpers keep it.
use tokenzy.Prelude.{true, false, if◌then◌else◌}
use tokenzy.Prelude.Str.{Str}
use tokenzy.Db.{Database, Result, ok, err, not_found, duplicate, failure}
use tokenzy.Panel.{
  Request, Answer, page, fragment, redirect, bad_request, unknown, internal_error, Resolved, found,
  missing, failed, render_listing, reading, writing, settled,
}

abbrev pub Shows {ℓ} : {A : Type ℓ} → (A → Type 0) → Answer A → Type 0
Shows P (page n s v) = P v
Shows P (fragment n s v) = P v
Shows P (redirect s) = Unit
Shows P bad_request = Unit
Shows P unknown = Unit
Shows P internal_error = Unit

pub Shows-settled {ℓ} :
    {A : Type 0} {B : Type ℓ} (P : A → Type 0) (x : Result B) (panel : Answer A) (d : Database)
    → Shows P panel
    → Shows P (settled x panel d).0
Shows-settled P (ok t) panel d h = h
Shows-settled P (err not_found) panel d h = h
Shows-settled P (err duplicate) panel d h = tt
Shows-settled P (err failure) panel d h = tt

pub Shows-reading {ℓ κ} :
    {S : Type ℓ} {A : Type κ} (P : A → Type 0) (x : Resolved S) (k : S → Answer A)
    → ((s : S) → Shows P (k s))
    → Shows P (reading x k)
Shows-reading P (found s) k h = h s
Shows-reading P missing k h = tt
Shows-reading P failed k h = tt

pub Shows-writing {ℓ} :
    {S : Type ℓ} {A : Type 0} (P : A → Type 0) (x : Resolved S) (d : Database)
    (k : S → Answer A × Database)
    → ((s : S) → Shows P (k s).0)
    → Shows P (writing x d k).0
Shows-writing P (found s) d k h = h s
Shows-writing P missing d k h = tt
Shows-writing P failed d k h = tt

pub Shows-listing {ℓ} :
    {A : Type ℓ} (P : A → Type 0) (r : Request) (p f : Str) (view : A)
    → P view
    → Shows P (render_listing r p f view)
unfolding render_listing
Shows-listing P r p f view h =
    elim r.htmx as (λ b. Shows P (if b then fragment 200 f view else page 200 p view)) [
      | true ↦ h
      | false ↦ h
    ]
