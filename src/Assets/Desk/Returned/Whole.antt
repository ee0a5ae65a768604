-- ===== src/Assets/Desk/Returned/Whole.antt =====
-- A whole run of `return_assets_form` (assets/views.py) and of `return_assets` (assets/admin.py).
use optima_management.Base.{
  ℕ, ◌≡◌, ◌≢◌, refl, sym, ap, ◌∙◌, Bool, true, false, not, ◌&&◌, some, List, [], ◌∷◌, ◌==◌, map,
  arith, Option-cases, inl, inr, ◌⊎◌, ◌||◌, is_some,
}
use mathlib.Core.Path.{subst}
use native.Mathlib.Decide.{ℕ_discrete}
use optima_management.Base.Int.{ℤ}
use optima_management.Base.Lists.{elem-filter, elem, filter, All}
use optima_management.Base.Table.{get, get-put_self}
use optima_management.Assets.{Asset, AssetAssignment, Stock}
use optima_management.Assets.Consistent.{IsConsistent}
use optima_management.Assets.Desk.{Rows, asset_rows}
use optima_management.Assets.Desk.Return.{
  ReturnForm, return_asset, return_row, return_rows, return_assignment,
}
use optima_management.Assets.Desk.Returned.{
  IsBack, without, round, round-assignments, round-IsConsistent, round-IsBack, round-IsBack_other,
}

abbrev keys : Rows → List ℕ
keys = map (λ r. r.0)

elem-filter_first :
    (j id : ℕ) (xs ks : List ℕ)
    → (elem j (filter (λ a. not (elem a (id ∷ []))) xs) && not (elem j ks))
      ≡ (elem j xs && not (j == id || elem j ks))
elem-filter_first j id xs ks = ground (arith, elem-filter j (λ a. not (elem a (id ∷ []))) xs)

elem-nil : (xs : List ℕ) → ((j : ℕ) → elem j xs ≡ false) → xs ≡ []
elem-nil [] h = refl
elem-nil (x ∷ xs) h = let first = h x in ground arith

emptied :
    (y x : AssetAssignment)
    → y.employee ≡ x.employee
    → y.assets ≡ []
    → some y ≡ some (record x { assets = [] })
emptied y x e h =
    ap (λ u. some (record y { employee = u })) e ∙ ap (λ l. some (record x { assets = l })) h

true-ne-false : true ≢ false
true-ne-false h = cc

module _ (in_admin : Bool) (today : ℤ) (by : ℕ) (form : ReturnForm) (k : ℕ) where
  -- What the rounds of the loop make of an assignment.
  record Outcome (x : AssetAssignment) (rs : Rows) (s s' : Stock) : Type 0 where
    consistent : IsConsistent s'
    row : AssetAssignment
    stored : get k s'.assignments ≡ some row
    employee : row.employee ≡ x.employee
    left : (j : ℕ) → elem j row.assets ≡ (elem j x.assets && not (elem j (keys rs)))
    is_back : (j : ℕ) → (elem j (keys rs) ≡ true) ⊎ IsBack form s j → IsBack form s' j

  return_row-found :
      (x : AssetAssignment) (r : ℕ × Asset) (s : Stock)
      → get k s.assignments ≡ some x
      → return_row in_admin today by form k r s ≡ return_asset in_admin today by form k x r s
  unfolding return_row
  return_row-found x r s found = rw (found, return_row) refl

  return_rows-Outcome :
      (x : AssetAssignment) (rs : Rows) (s : Stock)
      → get k s.assignments ≡ some x
      → IsConsistent s
      → Outcome x rs s (return_rows in_admin today by form k rs s)
  unfolding return_rows
  return_rows-Outcome x [] s found c = record {
    consistent = c;
    row = x;
    stored = found;
    employee = refl;
    left = λ j. ground arith;
    is_back = λ j h. elim h [ inl e ↦ cc | inr b ↦ b ];
  }
  return_rows-Outcome x ((id, a) ∷ rs) s found c =
      let s1 = round in_admin today by form k x id a s in
      let found1 =
        ap (get k) (round-assignments in_admin today by form k x id a s found c)
        ∙ get-put_self k (without id x) s.assignments in
      let rest =
        return_rows-Outcome (without id x) rs s1 found1
          (round-IsConsistent in_admin today by form k x id a s found c) in
      subst (λ t. Outcome x ((id, a) ∷ rs) s (return_rows in_admin today by form k rs t))
        (sym (return_row-found x (id, a) s found))
        (record {
          consistent = rest.consistent;
          row = rest.row;
          stored = rest.stored;
          employee = rest.employee;
          left = λ j. rest.left j ∙ elem-filter_first j id x.assets (keys rs);
          is_back = λ j h. rest.is_back j (elim (ℕ_discrete j id) [
            | yes p ↦ inr (
                subst (IsBack form s1) (sym p)
                  (round-IsBack in_admin today by form k x id a s found c))
            | no ne ↦ elim h [
              | inl e ↦ inl (ground arith)
              | inr b ↦ inr (round-IsBack_other in_admin today by form k x id a s found c j ne b)
            ]
          ]);
        })

  asset_rows_found :
      (id : ℕ) (ids : List ℕ) (s : Stock) (a : Asset)
      → get id s.assets ≡ some a
      → asset_rows (id ∷ ids) s ≡ (id, a) ∷ asset_rows ids s
  unfolding asset_rows
  asset_rows_found id ids s a e = rw (e, asset_rows) refl

  keys-asset_rows :
      (ids : List ℕ) (s : Stock)
      → All (λ id. is_some (get id s.assets) ≡ true) ids
      → keys (asset_rows ids s) ≡ ids
  unfolding asset_rows
  keys-asset_rows [] s h = refl
  keys-asset_rows (id ∷ ids) s h = elim (Option-cases (get id s.assets)) [
    | inl e ↦ absurd (true-ne-false (sym h.0 ∙ ap is_some e))
    | inr (a, e) ↦
        ap keys (asset_rows_found id ids s a e) ∙ ap (λ r. id ∷ r) (keys-asset_rows ids s h.1)
  ]

  return_assignment_found :
      (x : AssetAssignment) (s : Stock) (ids : List ℕ)
      → get k s.assignments ≡ some x
      → x.assets ≡ ids
      → (return_assignment in_admin today by form k s).0
        ≡ return_rows in_admin today by form k (asset_rows ids s) s
  unfolding return_assignment return_rows
  return_assignment_found x s [] found e =
      rw (found, return_assignment, e) (unfold asset_rows in refl)
  return_assignment_found x s (id ∷ ids) found e = rw (found, return_assignment, e) refl

  out_of_all : (j : ℕ) (xs : List ℕ) → (elem j xs && not (elem j xs)) ≡ false
  out_of_all j xs = ground arith

  -- A return of a stored assignment, whose assets are stored, leaves it without assets; every asset that
  -- it had gets the status that its condition gives, or stays assigned where another assignment has
  -- it; and every asset that some assignment names is still marked as assigned.
  pub return_assignment_lem :
      (x : AssetAssignment) (s : Stock)
      → get k s.assignments ≡ some x
      → IsConsistent s
      → All (λ id. is_some (get id s.assets) ≡ true) x.assets
      → let s' = (return_assignment in_admin today by form k s).0 in
        IsConsistent s'
        × (get k s'.assignments ≡ some (record x { assets = [] }))
        × ((j : ℕ) → elem j x.assets ≡ true → IsBack form s' j)
  return_assignment_lem x s found c h =
      let rs = asset_rows x.assets s in
      let all = keys-asset_rows x.assets s h in
      let o = return_rows-Outcome x rs s found c in
      let empty : o.row.assets ≡ [] = elem-nil o.row.assets (λ j.
        o.left j ∙ ap (λ ks. elem j x.assets && not (elem j ks)) all ∙ out_of_all j x.assets) in
      rw (return_assignment_found x s x.assets found refl) (
        o.consistent,
        o.stored ∙ emptied o.row x o.employee empty,
        λ j e. o.is_back j (inl (ap (elem j) all ∙ e)),
      )
