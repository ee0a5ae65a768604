-- ===== src/Assets/Consistent.antt =====
-- The status of an asset that stands in an assignment, under the receivers of assets/models.py.
use optima_management.Base.{
  ℕ, ◌≡◌, refl, sym, ap, ◌∙◌, ◌≢◌, ◌⊎◌, inl, inr, Bool, true, false, not, ◌&&◌, Option, none, some,
  List, [], ◌∷◌, ◌++◌, arith, if◌then◌else◌,
}
use native.Mathlib.Decide.{ℕ_discrete}
use optima_management.Base.Int.{ℤ}
use optima_management.Base.Lists.{elem, filter, elem-append}
use optima_management.Base.Table.{Table, get, put, exists, get-put_self}
use optima_management.Assets.{
  AssetStatus, assigned, Asset, AssetAssignment, Condition, Stock, still_assigned, save_asset,
  assignment_saved, add_assets, remove_assets, status_after, asset_returned,
}
use optima_management.Assets.Status.{
  status_of, over, save_asset-status, mark_all-status, release_all-status, still_assigned-same,
}

pub record IsConsistent (s : Stock) : Type 0 where
  pub holds :
      (j : ℕ) (st : AssetStatus)
      → still_assigned j s ≡ true
      → status_of j s ≡ some st
      → st ≡ assigned

abbrev has : ℕ → AssetAssignment → Bool
has j x = elem j x.assets

-- An assignment that names the asset after a write is the written row, or was there before.
exists-put :
    (j k : ℕ) (x : AssetAssignment) (t : Table AssetAssignment)
    → exists (has j) (put k x t) ≡ true
    → (has j x ≡ true) ⊎ (exists (has j) t ≡ true)
exists-put j k x [] h = ground arith
exists-put j k x ((i, y) ∷ t) h = ground (arith, exists-put j k x t)

exists_of_get :
    (j k : ℕ) (x : AssetAssignment) (t : Table AssetAssignment)
    → get k t ≡ some x
    → has j x ≡ true
    → exists (has j) t ≡ true
exists_of_get j k x [] e h = cc
exists_of_get j k x ((i, y) ∷ t) e h = ground (arith, exists_of_get j k x t)

elem-filter : (j : ℕ) (p : ℕ → Bool) (xs : List ℕ) → elem j (filter p xs) ≡ (elem j xs && p j)
elem-filter j p [] = refl
elem-filter j p (x ∷ xs) = ground (arith, elem-filter j p xs, ap p)

-- The marked assets are consistent with a table that has grown by a row of marked assets.
mark_consistent :
    (b : Bool) (o : Option AssetStatus) (st : AssetStatus)
    → (b ≡ false → (u : AssetStatus) → o ≡ some u → u ≡ assigned)
    → (if b then over assigned o else o) ≡ some st
    → st ≡ assigned
mark_consistent true none st h e = cc
mark_consistent true (some u) st h e = cc
mark_consistent false o st h e = h refl st e

-- The employee who used an asset last.
abbrev user? : Option Asset → Option ℕ
user? none = none
user? (some a) = a.previously_used_by

abbrev pub previous_user : ℕ → Stock → Option ℕ
previous_user id s = user? (get id s.assets)

previous_user_saved :
    (today : ℤ) (id : ℕ) (a : Asset) (s : Stock)
    → previous_user id (save_asset today id a s) ≡ a.previously_used_by
unfolding save_asset
previous_user_saved today id a s = ap user? (get-put_self id _ s.assets)

still_status : (b : Bool) (cond : Condition) → b ≡ true → status_after b cond ≡ assigned
unfolding status_after
still_status b cond h = cc

module _ (today : ℤ) (k : ℕ) (s : Stock) (c : IsConsistent s) where
  -- Saving an assignment, new or stored, keeps the invariant: every asset that some assignment names,
  -- the saved one included, is marked as assigned.
  pub assignment_saved-IsConsistent :
      (x : AssetAssignment) → IsConsistent (assignment_saved today k x s)
  unfolding assignment_saved still_assigned
  assignment_saved-IsConsistent x = record {
    holds = λ j st still e.
        let s' = record s { assignments = put k x s.assignments } in
        let (status, same) = mark_all-status today j x.assets s' in
        let named : (has j x ≡ true) ⊎ (exists (has j) s.assignments ≡ true) =
          exists-put j k x s.assignments (sym (ap (exists (has j)) same) ∙ still) in
        mark_consistent (elem j x.assets) (status_of j s) st
          (λ out u q. elim named [ inl p ↦ cc | inr p ↦ c.holds j u p q ]) (sym status ∙ e);
  }

  module _ (x : AssetAssignment) (found : get k s.assignments ≡ some x) (pks : List ℕ) where
    -- Adding assets to a stored assignment keeps the invariant that every asset that some assignment
    -- names is marked as assigned.
    pub add_assets-IsConsistent : IsConsistent (add_assets today k x pks s)
    unfolding add_assets still_assigned
    add_assets-IsConsistent = record {
      holds = λ j st still e.
          let fresh = filter (λ p. not (elem p x.assets)) pks in
          let x' : AssetAssignment = record x { assets = x.assets ++ fresh } in
          let (status, same) =
            mark_all-status today j fresh (record s { assignments = put k x' s.assignments }) in
          let named : (has j x' ≡ true) ⊎ (exists (has j) s.assignments ≡ true) =
            exists-put j k x' s.assignments (sym (ap (exists (has j)) same) ∙ still) in
          mark_consistent (elem j fresh) (status_of j s) st
            (λ out u q. elim named [
              | inl p ↦
                  c.holds j u
                    (exists_of_get j k x s.assignments found
                      (ground (arith, elem-append j x.assets fresh)))
                    q
              | inr p ↦ c.holds j u p q
            ])
            (sym status ∙ e);
    }

    -- An asset that still stands in an assignment after the removal keeps its status.
    remove_still :
        (j : ℕ)
        → still_assigned j (remove_assets today k x pks s) ≡ true
        → (still_assigned j s ≡ true)
          × (status_of j (remove_assets today k x pks s) ≡ status_of j s)
    unfolding remove_assets still_assigned
    remove_still j still =
        let x' : AssetAssignment = record x { assets = filter (λ a. not (elem a pks)) x.assets } in
        let s' = record s { assignments = put k x' s.assignments } in
        let (status, same) = release_all-status today j pks s' in
        let after : still_assigned j s' ≡ true = sym (ap (exists (has j)) same) ∙ still in
        (
          elim (exists-put j k x' s.assignments after) [
            | inl p ↦
                exists_of_get j k x s.assignments found
                  (ground (arith, elem-filter j (λ a. not (elem a pks)) x.assets))
            | inr p ↦ p
          ],
          ground (arith, status, after),
        )

    -- Taking assets out of a stored assignment keeps the invariant that every asset that some
    -- assignment names is marked as assigned.
    pub remove_assets-IsConsistent : IsConsistent (remove_assets today k x pks s)
    remove_assets-IsConsistent = record {
      holds = λ j st still e.
          let (before, same) = remove_still j still in c.holds j st before (sym same ∙ e);
    }

  remove_other :
      (x : AssetAssignment) (id j : ℕ)
      → j ≢ id
      → status_of j (remove_assets today k x (id ∷ []) s) ≡ status_of j s
  unfolding remove_assets
  remove_other x id j ne =
      let s' = record s {
        assignments =
            put k (record x { assets = filter (λ a. not (elem a (id ∷ []))) x.assets })
              s.assignments;
      } in
      ground (arith, (release_all-status today j (id ∷ []) s').0)

  -- A new return keeps the invariant, gives the returned asset the status of its condition unless
  -- another assignment still has it, notes the employee, and changes the status of no other asset.
  pub asset_returned_lem :
      (x : AssetAssignment) (id : ℕ) (a : Asset) (cond : Condition)
      → get k s.assignments ≡ some x
      → let s' = asset_returned today k x id a cond s in
        IsConsistent s'
        × (status_of id s'
            ≡ some (status_after (still_assigned id (remove_assets today k x (id ∷ []) s)) cond))
        × (previous_user id s' ≡ some x.employee)
        × ((j : ℕ) → j ≢ id → status_of j s' ≡ status_of j s)
  unfolding asset_returned
  asset_returned_lem x id a cond found =
      let s1 = remove_assets today k x (id ∷ []) s in
      let a' : Asset = record a {
        status = status_after (still_assigned id s1) cond;
        previously_used_by = some x.employee;
      } in
      let (here, same) = save_asset-status today id id a' s1 in
      (
        record {
          holds = λ j st still e.
              let still1 : still_assigned j s1 ≡ true =
                sym (still_assigned-same j s1 (save_asset today id a' s1) same) ∙ still in
              let (there, same') = save_asset-status today j id a' s1 in
              elim (ℕ_discrete j id) [
                | yes p ↦ ground (
                  arith,
                  there,
                  still_status (still_assigned id s1) cond,
                  ap (λ i. still_assigned i s1) p,
                )
                | no p ↦
                    (remove_assets-IsConsistent x found (id ∷ [])).holds j st still1
                      (ground (arith, there))
              ];
        },
        ground (arith, here),
        previous_user_saved today id a' s1,
        λ j ne.
            let (there, same') = save_asset-status today j id a' s1 in
            let other : status_of j s1 ≡ status_of j s = remove_other x id j ne in
            ground (arith, there, other),
      )
