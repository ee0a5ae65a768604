-- ===== src/Assets.antt =====
-- assets/models.py: the assets, their assignments to employees and their returns, with the signal
-- receivers that keep the status of an asset. Dates are days.
pub mod Status
pub mod Consistent
pub mod Reach
pub mod Desk
use optima_management.Base.{
  ℕ, Bool, true, false, not, ◌||◌, Option, none, some, List, [], ◌∷◌, ◌++◌, ◌==◌, if◌then◌else◌,
}
use optima_management.Base.Int.{ℤ, pos, ◌-ℤ◌, ltb_ℤ}
use optima_management.Base.Lists.{elem, filter}
use optima_management.Base.Table.{Table, get, put, exists}

pub data AssetStatus : Type 0 where
  available assigned damaged lost : AssetStatus

-- The fields of `Asset` that the code here reads or writes.
pub record Asset : Type 0 where
  pub asset_tag : List ℕ
  pub status : AssetStatus
  pub purchased_date : Option ℤ
  pub previously_used_by : Option ℕ
  pub laptop_age : Option ℤ

pub record AssetAssignment : Type 0 where
  pub employee : ℕ
  pub assets : List ℕ

-- `AssetReturn.condition`; `other` is a text that is no choice.
pub data Condition : Type 0 where
  good damaged lost other : Condition

-- `AssetHistory.action`, with the status or the employee that it names.
pub data Action : Type 0 where
  status_updated : AssetStatus → Action
  returned_from : ℕ → Action
  assigned_to : ℕ → Action
  taken_out : Action

pub record AssetHistory : Type 0 where
  pub asset : ℕ
  pub action : Action
  pub performed_by : Option ℕ

pub record Stock : Type 0 where
  pub assets : Table Asset
  pub assignments : Table AssetAssignment
  pub history : List AssetHistory

abbrev pub is_assigned : AssetStatus → Bool
is_assigned assigned = true
is_assigned _ = false

-- The age that `Asset.save` computes; a purchase in the future counts as today.
unfoldable pub age : ℤ → Option ℤ → Option ℤ
age today none = none
age today (some d) = some (if ltb_ℤ (today -ℤ d) (pos 0) then pos 0 else today -ℤ d)

-- `Asset.save`
unfoldable pub save_asset : ℤ → ℕ → Asset → Stock → Stock
unfolding age
save_asset today id a s = record s {
  assets = put id (record a { laptop_age = age today a.purchased_date }) s.assets;
}

-- `asset.status = ...; asset.save()` and the entry of the history.
unfoldable pub change_status : ℤ → ℕ → AssetStatus → Asset → Stock → Stock
unfolding save_asset
change_status today id st a s =
    let s' = save_asset today id (record a { status = st }) s in
    record s' {
      history = record { asset = id; action = status_updated st; performed_by = none } ∷ s'.history;
    }

-- The body of the loops over the assets that are assigned.
unfoldable pub mark_row : ℤ → ℕ → Stock → Option Asset → Stock
unfolding change_status
mark_row today id s none = s
mark_row today id s (some a) =
    if is_assigned a.status then s else change_status today id assigned a s

unfoldable pub mark_all : ℤ → List ℕ → Stock → Stock
unfolding mark_row
mark_all today [] s = s
mark_all today (id ∷ ids) s = mark_all today ids (mark_row today id s (get id s.assets))

-- `AssetAssignment.objects.filter(assets=asset).exists()`
unfoldable pub still_assigned : ℕ → Stock → Bool
still_assigned id s = exists (λ x. elem id x.assets) s.assignments

-- The body of the loop over the assets that are taken out of an assignment.
unfoldable pub release_row : ℤ → ℕ → Stock → Option Asset → Stock
unfolding change_status still_assigned
release_row today id s none = s
release_row today id s (some a) =
    if still_assigned id s then s else change_status today id available a s

unfoldable pub release_all : ℤ → List ℕ → Stock → Stock
unfolding release_row
release_all today [] s = s
release_all today (id ∷ ids) s = release_all today ids (release_row today id s (get id s.assets))

-- `update_asset_status_on_assignment`, the receiver of `post_save`.
unfoldable pub assignment_saved : ℤ → ℕ → AssetAssignment → Stock → Stock
unfolding mark_all
assignment_saved today k x s =
    mark_all today x.assets (record s { assignments = put k x s.assignments })

-- `assignment.assets.add(...)` with the receiver of `post_add`, which sees the new keys alone.
unfoldable pub add_assets : ℤ → ℕ → AssetAssignment → List ℕ → Stock → Stock
unfolding mark_all
add_assets today k x pks s =
    let fresh = filter (λ p. not (elem p x.assets)) pks in
    mark_all today fresh
      (record s { assignments = put k (record x { assets = x.assets ++ fresh }) s.assignments })

-- `assignment.assets.remove(...)` with the receiver of `post_remove`, which sees all keys given.
unfoldable pub remove_assets : ℤ → ℕ → AssetAssignment → List ℕ → Stock → Stock
unfolding release_all
remove_assets today k x pks s = release_all today pks (record s {
  assignments = put k (record x { assets = filter (λ a. not (elem a pks)) x.assets }) s.assignments;
})

unfoldable pub status_after : Bool → Condition → AssetStatus
status_after true c = assigned
status_after false good = available
status_after false Condition.damaged = AssetStatus.damaged
status_after false Condition.lost = AssetStatus.lost
status_after false other = available

-- `update_asset_status_on_return` for a new return: `a` is the asset as the return holds it, read
-- before the removal, and it is written back whole.
unfoldable pub asset_returned : ℤ → ℕ → AssetAssignment → ℕ → Asset → Condition → Stock → Stock
unfolding remove_assets save_asset status_after still_assigned
asset_returned today k x id a c s =
    let s' = remove_assets today k x (id ∷ []) s in
    save_asset today id
      (record a {
        status = status_after (still_assigned id s') c;
        previously_used_by = some x.employee;
      })
      s'
