-- ===== src/Assets/Desk/Give.antt =====
-- `AssetAssignmentSerializer` (assets/serializers.py), `AssetAssignmentViewSet` (assets/views.py) and
-- `save_model` of the admin (assets/admin.py).
use optima_management.Base.{
  ℕ, Bool, true, false, not, ◌&&◌, Option, none, some, List, [], ◌∷◌, ◌==◌, if◌then◌else◌, map,
  get_or,
}
use optima_management.Base.Int.{ℤ}
use optima_management.Base.Lists.{elem, filter, all, any}
use optima_management.Assets.{
  AssetStatus, available, assigned, Asset, AssetAssignment, Action, assigned_to, taken_out, Stock,
  save_asset, assignment_saved, add_assets, remove_assets,
}
use optima_management.Assets.Desk.{Rows, asset_rows, note}

-- An asset that the form of an assignment lists, and whether its type is software.
pub record Listed : Type 0 where
  pub id : ℕ
  pub asset : Asset
  pub software : Bool

abbrev pub is_available : AssetStatus → Bool
is_available available = true
is_available _ = false

abbrev pub is_out : AssetStatus → Bool
is_out AssetStatus.damaged = true
is_out AssetStatus.lost = true
is_out _ = false

-- `AssetAssignmentSerializer.validate`: it raises no ValidationError.
unfoldable pub can_be_given : Listed → Bool
can_be_given l = if l.software then not (is_out l.asset.status) else is_available l.asset.status

unfoldable pub validate : List Listed → List ℕ → Bool
unfolding can_be_given
validate [] [] = false
validate ls types = all can_be_given ls

-- `assignment.assets.set(...)`: the keys that go, then the keys that come.
unfoldable pub set_assets : ℤ → ℕ → AssetAssignment → List ℕ → Stock → Stock
unfolding remove_assets add_assets
set_assets today k x ids s =
    let gone = filter (λ a. not (elem a ids)) x.assets in
    let s = remove_assets today k x gone s in
    add_assets today k (record x { assets = filter (λ a. not (elem a gone)) x.assets })
      (filter (λ a. not (elem a x.assets)) ids) s

-- `asset.status = ...; asset.save(); AssetHistory.objects.create(...)`
unfoldable pub write_status : ℤ → ℕ → AssetStatus → Action → ℕ × Asset → Stock → Stock
unfolding save_asset note
write_status today by st act (id, a) s =
    note id act by (save_asset today id (record a { status = st }) s)

unfoldable pub assign_rows : ℤ → ℕ → ℕ → Rows → Stock → Stock
unfolding write_status
assign_rows today by employee [] s = s
assign_rows today by employee (r ∷ rs) s =
    assign_rows today by employee rs (write_status today by assigned (assigned_to employee) r s)

unfoldable pub note_all : ℕ → Action → Rows → Stock → Stock
unfolding note
note_all by act [] s = s
note_all by act ((id, a) ∷ rs) s = note_all by act rs (note id act by s)

abbrev pub row_of : Listed → ℕ × Asset
row_of l = (l.id, l.asset)

abbrev pub id_of : Listed → ℕ
id_of l = l.id

-- `AssetAssignmentSerializer.create` under a fresh key.
unfoldable pub create : ℤ → ℕ → ℕ → ℕ → List Listed → Stock → Stock
unfolding assignment_saved set_assets assign_rows
create today by k employee ls s =
    let x : AssetAssignment = record { employee = employee; assets = [] } in
    let s = assignment_saved today k x s in
    let s = set_assets today k x (map id_of ls) s in assign_rows today by employee (map row_of ls) s

-- A POST to the assignments: `none` is refused by the validation. `perform_create` notes the assets
-- a second time.
unfoldable pub perform_create : ℤ → ℕ → ℕ → Option ℕ → List Listed → List ℕ → Stock → Option Stock
unfolding validate create note_all asset_rows
perform_create today by k employee ls types s =
    let holder = get_or by employee in
    let s = create today by k holder ls s in
    if validate ls types
    then some (note_all by (assigned_to holder) (asset_rows (map id_of ls) s) s)
    else none

-- The loop of `perform_update` over the assets that have left the assignment.
unfoldable pub assigned_elsewhere : ℕ → ℕ → Stock → Bool
assigned_elsewhere k id s = any (λ r. not (r.0 == k) && elem id r.1.assets) s.assignments

unfoldable pub take_out : ℤ → ℕ → ℕ → ℕ × Asset → Stock → Stock
unfolding assigned_elsewhere write_status
take_out today by k (id, a) s =
    if assigned_elsewhere k id s then s else write_status today by available taken_out (id, a) s

unfoldable pub take_out_rows : ℤ → ℕ → ℕ → Rows → Stock → Stock
unfolding take_out
take_out_rows today by k [] s = s
take_out_rows today by k (r ∷ rs) s = take_out_rows today by k rs (take_out today by k r s)

-- `perform_update` behind the validation: `x` is the stored row, `employee` and `ids` are the new
-- values, which the serializer saves first.
unfoldable pub perform_update : ℤ → ℕ → ℕ → AssetAssignment → ℕ → List ℕ → Stock → Stock
unfolding asset_rows assignment_saved set_assets take_out_rows assign_rows
perform_update today by k x employee ids s =
    let old = asset_rows x.assets s in
    let x' : AssetAssignment = record x { employee = employee } in
    let s = assignment_saved today k x' s in
    let s = set_assets today k x' ids s in
    let new = asset_rows ids s in
    let s = take_out_rows today by k (filter (λ r. not (elem r.0 ids)) old) s in
    assign_rows today by employee (filter (λ r. not (elem r.0 x.assets)) new) s

-- `AssetAssignmentAdmin.save_model`: the assets of the form, if there are any.
unfoldable pub save_model : ℤ → ℕ → ℕ → AssetAssignment → Rows → Stock → Stock
unfolding assignment_saved set_assets assign_rows
save_model today by k x [] s = assignment_saved today k x s
save_model today by k x (r ∷ rs) s =
    let s = assignment_saved today k x s in
    let s = set_assets today k x (map (λ r. r.0) (r ∷ rs)) s in
    assign_rows today by x.employee (r ∷ rs) s
