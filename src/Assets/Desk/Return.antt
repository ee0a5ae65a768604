-- ===== src/Assets/Desk/Return.antt =====
-- `return_assets_form` (assets/views.py) and `return_assets` (assets/admin.py).
use optima_management.Base.{
  ℕ, Bool, true, false, not, Option, none, some, List, [], ◌∷◌, ◌==◌, if◌then◌else◌, map,
}
use optima_management.Base.Int.{ℤ}
use optima_management.Base.Lists.{all}
use optima_management.Base.Table.{get}
use optima_management.Assets.{
  Asset, AssetAssignment, Condition, lost, Action, status_updated, returned_from, AssetHistory,
  Stock, save_asset, asset_returned,
}
use optima_management.Assets.Desk.{Rows, asset_rows, note}

-- What the form of a return says of an asset.
pub record ReturnForm : Type 0 where
  pub condition : ℕ → Condition
  pub image : ℕ → Bool

abbrev pub is_bad : Condition → Bool
is_bad Condition.damaged = true
is_bad lost = true
is_bad _ = false

-- `asset.image_after = image; asset.save()`: the row as the receiver has left it.
unfoldable pub save_image : ℤ → ℕ → Bool → Stock → Stock
unfolding save_asset
save_image today id false s = s
save_image today id true s = elim (get id s.assets) [ none ↦ s | some a ↦ save_asset today id a s ]

-- The entries that the receivers have left for the asset, in the name of the user.
unfoldable pub claimed : ℕ → ℕ → ℕ → Action → Option ℕ → Option ℕ
claimed id by j (status_updated st) none = if j == id then some by else none
claimed id by j act o = o

unfoldable pub claim : ℕ → ℕ → AssetHistory → AssetHistory
unfolding claimed
claim id by h = record h { performed_by = claimed id by h.asset h.action h.performed_by }

unfoldable pub claim_entries : Bool → ℕ → ℕ → Stock → Stock
unfolding claim
claim_entries false id by s = s
claim_entries true id by s = record s { history = map (claim id by) s.history }

-- One round of the loop over the assets of an assignment, in the view and, with `in_admin`, in the
-- action of the admin.
unfoldable pub return_asset :
    Bool → ℤ → ℕ → ReturnForm → ℕ → AssetAssignment → ℕ × Asset → Stock → Stock
unfolding asset_returned save_image claim_entries note
return_asset in_admin today by form k x (id, a) s =
    let s = asset_returned today k x id a (form.condition id) s in
    let s = save_image today id (form.image id) s in
    let s = claim_entries in_admin id by s in note id (returned_from x.employee) by s

-- The relation of the assignment is read anew in each round.
unfoldable pub return_row : Bool → ℤ → ℕ → ReturnForm → ℕ → ℕ × Asset → Stock → Stock
unfolding return_asset
return_row in_admin today by form k r s = elim (get k s.assignments) [
  | none ↦ s
  | some x ↦ return_asset in_admin today by form k x r s
]

unfoldable pub return_rows : Bool → ℤ → ℕ → ReturnForm → ℕ → Rows → Stock → Stock
unfolding return_row
return_rows in_admin today by form k [] s = s
return_rows in_admin today by form k (r ∷ rs) s =
    return_rows in_admin today by form k rs (return_row in_admin today by form k r s)

-- `cleared`
unfoldable pub cleared : ReturnForm → Rows → Bool
cleared form = all (λ r. not (is_bad (form.condition r.0)))

-- `return_assets_form` on a POST, and `return_assets` of the admin: the assignments in the order of
-- their keys, and the reports sent, with `cleared`.
unfoldable pub return_assignment : Bool → ℤ → ℕ → ReturnForm → ℕ → Stock → Stock × Option (ℕ × Bool)
unfolding return_rows asset_rows cleared
return_assignment in_admin today by form k s = elim (get k s.assignments) [
  | none ↦ (s, none)
  | some x ↦ elim x.assets [
    | [] ↦ (s, none)
    | id ∷ ids ↦
        let rs = asset_rows (id ∷ ids) s in
        (return_rows in_admin today by form k rs s, some (k, cleared form rs))
  ]
]

unfoldable pub return_all : Bool → ℤ → ℕ → ReturnForm → List ℕ → Stock → Stock × List (ℕ × Bool)
unfolding return_assignment
return_all in_admin today by form [] s = (s, [])
return_all in_admin today by form (k ∷ ks) s =
    let (s, sent) = return_assignment in_admin today by form k s in
    let (s, reports) = return_all in_admin today by form ks s in
    (s, elim sent [ none ↦ reports | some r ↦ r ∷ reports ])
