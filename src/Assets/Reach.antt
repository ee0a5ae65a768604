-- ===== src/Assets/Reach.antt =====
-- The receivers of assets/models.py as steps of one relation.
use optima_management.Base.{ℕ, ◌≡◌, some, List}
use optima_management.Base.Int.{ℤ}
use optima_management.Base.Table.{get}
use optima_management.Assets.{
  Asset, AssetAssignment, Condition, Stock, assignment_saved, add_assets, remove_assets,
  asset_returned,
}
use optima_management.Assets.Consistent.{
  IsConsistent, assignment_saved-IsConsistent, add_assets-IsConsistent, remove_assets-IsConsistent,
  asset_returned_lem,
}

-- A save of any assignment, assets that come to a stored one or leave it, and a return.
pub data Step (s : Stock) : Stock → Type 0 where
  saved : (today : ℤ) (k : ℕ) (x : AssetAssignment) → Step s (assignment_saved today k x s)
  added :
      (today : ℤ) (k : ℕ) (x : AssetAssignment) (pks : List ℕ)
      → get k s.assignments ≡ some x
      → Step s (add_assets today k x pks s)
  removed :
      (today : ℤ) (k : ℕ) (x : AssetAssignment) (pks : List ℕ)
      → get k s.assignments ≡ some x
      → Step s (remove_assets today k x pks s)
  returned :
      (today : ℤ) (k : ℕ) (x : AssetAssignment) (id : ℕ) (a : Asset) (cond : Condition)
      → get k s.assignments ≡ some x
      → Step s (asset_returned today k x id a cond s)

pub data Steps (start : Stock) : Stock → Type 0 where
  here : Steps start start
  next : {a b : Stock} → Steps start a → Step a b → Steps start b

Step-IsConsistent : {a b : Stock} → Step a b → IsConsistent a → IsConsistent b
Step-IsConsistent {a = s} (saved today k x) c = assignment_saved-IsConsistent today k s c x
Step-IsConsistent {a = s} (added today k x pks e) c = add_assets-IsConsistent today k s c x e pks
Step-IsConsistent {a = s} (removed today k x pks e) c =
    remove_assets-IsConsistent today k s c x e pks
Step-IsConsistent {a = s} (returned today k x id a cond e) c =
    (asset_returned_lem today k s c x id a cond e).0

-- After any saves of assignments, assets added to them or taken out, and returns, every asset that
-- some assignment names is marked as assigned, where this held before.
pub Steps-IsConsistent : {a b : Stock} → Steps a b → IsConsistent a → IsConsistent b
Steps-IsConsistent here c = c
Steps-IsConsistent (next r st) c = Step-IsConsistent st (Steps-IsConsistent r c)
