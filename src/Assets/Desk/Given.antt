-- ===== src/Assets/Desk/Given.antt =====
-- What the views and the admin leave when they give assets out (assets/serializers.py,
-- assets/views.py, assets/admin.py).
pub mod Exclusive
use optima_management.Base.{
  ℕ, ◌≤◌, ◌+◌, ◌≡◌, ◌≢◌, refl, sym, ap, ◌∙◌, Bool, true, false, not, ◌&&◌, ◌||◌, Option, none, some,
  List, [], ◌∷◌, ◌==◌, ==_iff, map, arith, Bool-cases, inl, inr, if◌then◌else◌, some-eq, get_or,
  ◌++◌,
}
use mathlib.Core.Path.{subst}
use optima_management.Base.Int.{ℤ}
use optima_management.Base.Lists.{elem, filter, All, all}
use optima_management.Base.Table.{Table, get, put, exists, get-put_self}
use optima_management.Assets.{
  AssetStatus, assigned, assigned_to, available, Asset, AssetAssignment, Stock, still_assigned,
  save_asset, assignment_saved, add_assets, remove_assets,
}
use optima_management.Assets.Status.{
  status?, status_of, save_asset-status, release_all-status, mark_all-status, still_assigned-same,
}
use optima_management.Assets.Consistent.{
  IsConsistent, assignment_saved-IsConsistent, add_assets-IsConsistent, remove_assets-IsConsistent,
}
use optima_management.Assets.Desk.{Rows, asset_rows, note}
use optima_management.Assets.Desk.Give.{
  Listed, can_be_given, validate, set_assets, write_status, assign_rows, note_all, row_of, id_of,
  create, perform_create, save_model,
}

abbrev pub keys : Rows → List ℕ
keys = map (λ r. r.0)

-- The loop that marks the assets of an assignment.
pub assign_rows-status :
    (today : ℤ) (by employee j : ℕ) (rs : Rows) (s : Stock)
    → (status_of j (assign_rows today by employee rs s)
        ≡ (if elem j (keys rs) then some assigned else status_of j s))
      × ((assign_rows today by employee rs s).assignments ≡ s.assignments)
unfolding assign_rows write_status note
assign_rows-status today by employee j [] s = (refl, refl)
assign_rows-status today by employee j ((id, a) ∷ rs) s =
    let s1 = write_status today by assigned (assigned_to employee) (id, a) s in
    let (status, same) = assign_rows-status today by employee j rs s1 in
    let (one, kept) = save_asset-status today j id (record a { status = assigned }) s in
    (ground (arith, status, one), same ∙ kept)

pub assign_rows-IsConsistent :
    (today : ℤ) (by employee : ℕ) (rs : Rows) (s : Stock)
    → IsConsistent s
    → IsConsistent (assign_rows today by employee rs s)
assign_rows-IsConsistent today by employee rs s c = record {
  holds = λ j st still e.
      let (status, same) = assign_rows-status today by employee j rs s in
      let before =
        sym (still_assigned-same j s (assign_rows today by employee rs s) same) ∙ still in
      elim (Bool-cases (elem j (keys rs))) [
        | inl h ↦ some-eq (sym e ∙ status ∙ rw h refl)
        | inr h ↦ c.holds j st before (sym (status ∙ rw h refl) ∙ e)
      ];
}

-- The assignments behind each operation.
pub assignment_saved-assignments :
    (today : ℤ) (k : ℕ) (x : AssetAssignment) (s : Stock)
    → (assignment_saved today k x s).assignments ≡ put k x s.assignments
unfolding assignment_saved
assignment_saved-assignments today k x s = (mark_all-status today 0 x.assets _).1

pub remove_assets-assignments :
    (today : ℤ) (k : ℕ) (x : AssetAssignment) (pks : List ℕ) (s : Stock)
    → (remove_assets today k x pks s).assignments
      ≡ put k (record x { assets = filter (λ a. not (elem a pks)) x.assets }) s.assignments
unfolding remove_assets
remove_assets-assignments today k x pks s = (release_all-status today 0 pks _).1

pub add_assets-assignments :
    (today : ℤ) (k : ℕ) (x : AssetAssignment) (pks : List ℕ) (s : Stock)
    → (add_assets today k x pks s).assignments
      ≡ put k
          (record x { assets = x.assets ++ filter (λ p. not (elem p x.assets)) pks })
          s.assignments
unfolding add_assets
add_assets-assignments today k x pks s =
    (mark_all-status today 0 (filter (λ p. not (elem p x.assets)) pks) _).1

pub put-put :
    (k : ℕ) (x y : AssetAssignment) (t : Table AssetAssignment) → put k x (put k y t) ≡ put k x t
put-put k x y [] = ground arith
put-put k x y ((i, z) ∷ t) = ground (arith, put-put k x y t)

-- Setting the assets of a stored assignment keeps what is consistent.
pub set_assets-IsConsistent :
    (today : ℤ) (k : ℕ) (x : AssetAssignment) (ids : List ℕ) (s : Stock)
    → get k s.assignments ≡ some x
    → IsConsistent s
    → IsConsistent (set_assets today k x ids s)
unfolding set_assets
set_assets-IsConsistent today k x ids s found c =
    let gone = filter (λ a. not (elem a ids)) x.assets in
    let x1 : AssetAssignment = record x { assets = filter (λ a. not (elem a gone)) x.assets } in
    add_assets-IsConsistent today k (remove_assets today k x gone s)
      (remove_assets-IsConsistent today k s c x found gone) x1
      (ap (get k) (remove_assets-assignments today k x gone s) ∙ get-put_self k x1 s.assignments) _

pub saved_found :
    (today : ℤ) (k : ℕ) (x : AssetAssignment) (s : Stock)
    → get k (assignment_saved today k x s).assignments ≡ some x
saved_found today k x s =
    ap (get k) (assignment_saved-assignments today k x s) ∙ get-put_self k x s.assignments

-- The admin's save of an assignment keeps what is consistent, with any assets in the form.
pub save_model-IsConsistent :
    (today : ℤ) (by k : ℕ) (x : AssetAssignment) (rs : Rows) (s : Stock)
    → IsConsistent s
    → IsConsistent (save_model today by k x rs s)
unfolding save_model
save_model-IsConsistent today by k x [] s c = assignment_saved-IsConsistent today k s c x
save_model-IsConsistent today by k x (r ∷ rs) s c =
    assign_rows-IsConsistent today by x.employee (r ∷ rs) _ (
      set_assets-IsConsistent today k x (keys (r ∷ rs)) _ (saved_found today k x s)
        (assignment_saved-IsConsistent today k s c x))
