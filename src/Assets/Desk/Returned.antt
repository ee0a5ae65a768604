-- ===== src/Assets/Desk/Returned.antt =====
-- What a return of the assets of an assignment leaves (assets/views.py, assets/admin.py).
pub mod Whole
use optima_management.Base.{
  ℕ, ◌≡◌, ◌≢◌, refl, sym, ap, ◌∙◌, Bool, true, false, not, ◌&&◌, Option, none, some, List, [], ◌∷◌,
  ◌==◌, ==_iff, map, arith, Bool-cases, Option-cases, inl, inr, if◌then◌else◌, is_some,
}
use mathlib.Core.Path.{subst}
use optima_management.Base.Int.{ℤ}
use optima_management.Base.Lists.{elem, filter, All}
use optima_management.Base.Table.{Table, get, put, exists, get-put_self}
use optima_management.Assets.{
  AssetStatus, Asset, AssetAssignment, Condition, Stock, still_assigned, save_asset, remove_assets,
  status_after, asset_returned,
}
use optima_management.Assets.Status.{
  status?, status_of, save_asset-status, release_all-status, still_assigned-same,
}
use optima_management.Assets.Consistent.{IsConsistent, asset_returned_lem}
use optima_management.Assets.Desk.{Rows, asset_rows, note}
use optima_management.Assets.Desk.Return.{
  ReturnForm, save_image, claim_entries, return_asset, return_row, return_rows, return_assignment,
}

-- Two stocks with the same assignments and the same status of every asset.
pub record Same (s s' : Stock) : Type 0 where
  pub assignments : s'.assignments ≡ s.assignments
  pub status : (j : ℕ) → status_of j s' ≡ status_of j s

pub Same-IsConsistent : (s s' : Stock) → Same s s' → IsConsistent s → IsConsistent s'
Same-IsConsistent s s' e c = record {
  holds = λ j st still h.
      c.holds j st (sym (still_assigned-same j s s' e.assignments) ∙ still) (sym (e.status j) ∙ h);
}

save_image-Same : (today : ℤ) (id : ℕ) (b : Bool) (s : Stock) → Same s (save_image today id b s)
unfolding save_image
save_image-Same today id false s = record { assignments = refl; status = λ j. refl }
save_image-Same today id true s = elim (Option-cases (get id s.assets)) [
  | inl e ↦ rw (e, save_image) (record { assignments = refl; status = λ j. refl })
  | inr (a, e) ↦
      rw (e, save_image)
        (record {
          assignments = (save_asset-status today id id a s).1;
          status = λ j.
              let there = (save_asset-status today j id a s).0 in
              let here : status_of id s ≡ some a.status = ap status? e in
              ground (arith, there, here, ap (λ i. status_of i s), ==_iff j id);
        })
]

return_asset-Same :
    (in_admin : Bool) (today : ℤ) (by : ℕ) (form : ReturnForm) (k : ℕ) (x : AssetAssignment)
    (id : ℕ) (a : Asset) (s : Stock)
    → Same
        (asset_returned today k x id a (form.condition id) s)
        (return_asset in_admin today by form k x (id, a) s)
unfolding return_asset claim_entries note
return_asset-Same true today by form k x id a s =
    let e =
      save_image-Same today id (form.image id)
        (asset_returned today k x id a (form.condition id) s) in
    record { assignments = e.assignments; status = e.status }
return_asset-Same false today by form k x id a s =
    let e =
      save_image-Same today id (form.image id)
        (asset_returned today k x id a (form.condition id) s) in
    record { assignments = e.assignments; status = e.status }

-- An asset is named by a table as before where the row that is written names it as the old one did.
exists-put_same :
    (j k : ℕ) (x y : AssetAssignment) (t : Table AssetAssignment)
    → get k t ≡ some x
    → elem j y.assets ≡ elem j x.assets
    → exists (λ z. elem j z.assets) (put k y t) ≡ exists (λ z. elem j z.assets) t
exists-put_same j k x y [] e h = cc
exists-put_same j k x y ((i, z) ∷ t) e h = ground (arith, exists-put_same j k x y t)

elem-filter_out :
    (j id : ℕ) (xs : List ℕ) → j ≢ id → elem j (filter (λ a. not (elem a (id ∷ []))) xs) ≡ elem j xs
elem-filter_out j id [] ne = refl
elem-filter_out j id (x ∷ xs) ne = ground (arith, elem-filter_out j id xs ne)

-- What the assignment keeps behind a return.
abbrev pub without : ℕ → AssetAssignment → AssetAssignment
without id x = record x { assets = filter (λ a. not (elem a (id ∷ []))) x.assets }

asset_returned-assignments :
    (today : ℤ) (k : ℕ) (x : AssetAssignment) (id : ℕ) (a : Asset) (c : Condition) (s : Stock)
    → ((asset_returned today k x id a c s).assignments ≡ put k (without id x) s.assignments)
      × ((remove_assets today k x (id ∷ []) s).assignments ≡ put k (without id x) s.assignments)
unfolding asset_returned remove_assets save_asset
asset_returned-assignments today k x id a c s =
    let removed =
      (release_all-status today id (id ∷ [])
        (record s { assignments = put k (without id x) s.assignments })).1 in
    (removed, removed)

-- An asset has the status that its condition gives it, unless another assignment has it.
pub record IsBack (form : ReturnForm) (s : Stock) (id : ℕ) : Type 0 where
  pub back : status_of id s ≡ some (status_after (still_assigned id s) (form.condition id))

module _ (in_admin : Bool) (today : ℤ) (by : ℕ) (form : ReturnForm) (k : ℕ) where
  abbrev pub round : AssetAssignment → ℕ → Asset → Stock → Stock
  round x id a s = return_asset in_admin today by form k x (id, a) s

  module _ (x : AssetAssignment) (id : ℕ) (a : Asset) (s : Stock)
      (found : get k s.assignments ≡ some x) (c : IsConsistent s) where
    abbrev middle : Stock
    middle = asset_returned today k x id a (form.condition id) s

    same : Same middle (round x id a s)
    same = return_asset-Same in_admin today by form k x id a s

    pub round-assignments : (round x id a s).assignments ≡ put k (without id x) s.assignments
    round-assignments =
        same.assignments ∙ (asset_returned-assignments today k x id a (form.condition id) s).0

    pub round-IsConsistent : IsConsistent (round x id a s)
    round-IsConsistent =
        Same-IsConsistent middle (round x id a s) same
          (asset_returned_lem today k s c x id a (form.condition id) found).0

    pub round-IsBack : IsBack form (round x id a s) id
    unfolding still_assigned
    round-IsBack =
        let (_, status, _, _) = asset_returned_lem today k s c x id a (form.condition id) found in
        let removed = (asset_returned-assignments today k x id a (form.condition id) s).1 in
        record {
          back =
              same.status id
              ∙ status
              ∙ ap (λ t. some (status_after (exists (λ z. elem id z.assets) t) (form.condition id)))
                  (removed ∙ sym round-assignments);
        }

    pub round-IsBack_other : (j : ℕ) → j ≢ id → IsBack form s j → IsBack form (round x id a s) j
    unfolding still_assigned
    round-IsBack_other j ne b =
        let (_, _, _, others) = asset_returned_lem today k s c x id a (form.condition id) found in
        let kept =
          ap (exists (λ z. elem j z.assets)) round-assignments
          ∙ exists-put_same j k x (without id x) s.assignments found
              (elem-filter_out j id x.assets ne) in
        record {
          back =
              same.status j
              ∙ others j ne
              ∙ b.back
              ∙ ap (λ h. some (status_after h (form.condition j))) (sym kept);
        }
