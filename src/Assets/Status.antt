-- ===== src/Assets/Status.antt =====
-- What the receivers of assets/models.py make of the status of each asset, as one equation for each
-- loop.
use optima_management.Base.{
  ℕ, ◌≡◌, refl, ap, ◌∙◌, not, ◌&&◌, Option, none, some, List, [], ◌∷◌, ◌==◌, arith, if◌then◌else◌,
}
use optima_management.Base.Int.{ℤ}
use optima_management.Base.Lists.{elem}
use optima_management.Base.Table.{Table, get, put, exists}
use optima_management.Assets.{
  AssetStatus, available, assigned, Asset, Stock, save_asset, change_status, mark_row, mark_all,
  still_assigned, release_row, release_all,
}

abbrev pub status? : Option Asset → Option AssetStatus
status? none = none
status? (some a) = some a.status

abbrev pub status_of : ℕ → Stock → Option AssetStatus
status_of j s = status? (get j s.assets)

-- The status of an asset that exists, replaced.
abbrev pub over : AssetStatus → Option AssetStatus → Option AssetStatus
over st none = none
over st (some _) = some st

get-put_status :
    (j id : ℕ) (a : Asset) (t : Table Asset)
    → status? (get j (put id a t)) ≡ (if j == id then some a.status else status? (get j t))
get-put_status j id a [] = ground arith
get-put_status j id a (r ∷ t) = ground (arith, get-put_status j id a t)

pub save_asset-status :
    (today : ℤ) (j id : ℕ) (a : Asset) (s : Stock)
    → (status_of j (save_asset today id a s) ≡ (if j == id then some a.status else status_of j s))
      × ((save_asset today id a s).assignments ≡ s.assignments)
unfolding save_asset
save_asset-status today j id a s = (get-put_status j id _ s.assets, refl)

change_status-status :
    (today : ℤ) (j id : ℕ) (st : AssetStatus) (a : Asset) (s : Stock)
    → (status_of j (change_status today id st a s) ≡ (if j == id then some st else status_of j s))
      × ((change_status today id st a s).assignments ≡ s.assignments)
unfolding change_status
change_status-status today j id st a s = save_asset-status today j id (record a { status = st }) s

mark_row-status :
    (today : ℤ) (j id : ℕ) (s : Stock) (o : Option Asset)
    → get id s.assets ≡ o
    → (status_of j (mark_row today id s o)
        ≡ (if j == id then over assigned (status_of j s) else status_of j s))
      × ((mark_row today id s o).assignments ≡ s.assignments)
unfolding mark_row
mark_row-status today j id s none e = (ground arith, refl)
mark_row-status today j id s (some a) e =
    ground (arith, change_status-status today j id assigned a s)

pub mark_all-status :
    (today : ℤ) (j : ℕ) (ids : List ℕ) (s : Stock)
    → (status_of j (mark_all today ids s)
        ≡ (if elem j ids then over assigned (status_of j s) else status_of j s))
      × ((mark_all today ids s).assignments ≡ s.assignments)
unfolding mark_all
mark_all-status today j [] s = (refl, refl)
mark_all-status today j (id ∷ ids) s =
    let s' = mark_row today id s (get id s.assets) in
    let (ih, kept) = mark_all-status today j ids s' in
    let (one, same) = mark_row-status today j id s (get id s.assets) refl in
    (ground (arith, ih, one), kept ∙ same)

release_row-status :
    (today : ℤ) (j id : ℕ) (s : Stock) (o : Option Asset)
    → get id s.assets ≡ o
    → (status_of j (release_row today id s o) ≡ (
        if j == id && not (still_assigned j s)
        then over available (status_of j s)
        else status_of j s))
      × ((release_row today id s o).assignments ≡ s.assignments)
unfolding release_row
release_row-status today j id s none e = (ground arith, refl)
release_row-status today j id s (some a) e =
    ground (arith, change_status-status today j id available a s)

pub still_assigned-same :
    (j : ℕ) (s s' : Stock)
    → s'.assignments ≡ s.assignments
    → still_assigned j s' ≡ still_assigned j s
unfolding still_assigned
still_assigned-same j s s' e = ap (exists (λ x. elem j x.assets)) e

pub release_all-status :
    (today : ℤ) (j : ℕ) (ids : List ℕ) (s : Stock)
    → (status_of j (release_all today ids s) ≡ (
        if elem j ids && not (still_assigned j s)
        then over available (status_of j s)
        else status_of j s))
      × ((release_all today ids s).assignments ≡ s.assignments)
unfolding release_all
release_all-status today j [] s = (refl, refl)
release_all-status today j (id ∷ ids) s =
    let s' = release_row today id s (get id s.assets) in
    let (ih, kept) = release_all-status today j ids s' in
    let (one, same) = release_row-status today j id s (get id s.assets) refl in
    (ground (arith, ih, one, still_assigned-same j s s' same), kept ∙ same)
