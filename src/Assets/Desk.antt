-- ===== src/Assets/Desk.antt =====
-- The views and the admin that give assets out and take them back (assets/views.py,
-- assets/serializers.py, assets/admin.py), over the receivers of the models. A loop reads its rows
-- before its first round, as a query set does, and writes them back whole.
pub mod Return
pub mod Give
pub mod Returned
pub mod Given
use optima_management.Base.{
  ℕ, Bool, true, false, not, ◌&&◌, ◌||◌, Option, none, some, List, [], ◌∷◌, ◌==◌, if◌then◌else◌,
  map, get_or,
}
use optima_management.Base.Int.{ℤ}
use optima_management.Base.Lists.{elem, filter, all, any}
use optima_management.Base.Table.{Table, get, put, exists}
use optima_management.Assets.{
  AssetStatus, available, assigned, Asset, AssetAssignment, Condition, good, lost, other, Action,
  status_updated, returned_from, assigned_to, taken_out, AssetHistory, Stock, save_asset,
  assignment_saved, add_assets, remove_assets, asset_returned, still_assigned,
}

-- Rows of assets with their keys, as a query set or a form holds them.
abbrev pub Rows : Type 0
Rows = List (ℕ × Asset)

-- `Asset.objects.filter(id__in=ids)` in the order of the keys given.
unfoldable pub asset_rows : List ℕ → Stock → Rows
asset_rows [] s = []
asset_rows (id ∷ ids) s = elim (get id s.assets) [
  | none ↦ asset_rows ids s
  | some a ↦ (id, a) ∷ asset_rows ids s
]

-- `AssetHistory.objects.create`
unfoldable pub note : ℕ → Action → ℕ → Stock → Stock
note id act by s = record s {
  history = record { asset = id; action = act; performed_by = some by } ∷ s.history;
}
