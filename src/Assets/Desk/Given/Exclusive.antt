-- ===== src/Assets/Desk/Given/Exclusive.antt =====
-- Hardware that is given out through the API (assets/serializers.py, assets/views.py).
use optima_management.Base.{
  ℕ, ◌≤◌, ◌+◌, ◌≡◌, ◌≢◌, refl, sym, ap, ◌∙◌, Bool, true, false, not, Option, none, some, List, [],
  ◌∷◌, ◌==◌, ==_iff, map, arith, Bool-cases, inl, inr, if◌then◌else◌, some-eq, get_or,
}
use mathlib.Core.Path.{subst}
use optima_management.Base.Int.{ℤ}
use optima_management.Base.Lists.{elem, filter, All, all}
use optima_management.Base.Table.{Table, get, put, exists}
use optima_management.Assets.{
  Action, assigned_to, AssetAssignment, Stock, still_assigned, assignment_saved, add_assets,
  remove_assets,
}
use optima_management.Assets.Status.{status?}
use optima_management.Assets.Consistent.{IsConsistent, assignment_saved-IsConsistent}
use optima_management.Assets.Desk.{Rows, asset_rows, note}
use optima_management.Assets.Desk.Give.{
  Listed, can_be_given, validate, set_assets, note_all, row_of, id_of, create, perform_create,
}
use optima_management.Assets.Desk.Returned.{Same, Same-IsConsistent}
use optima_management.Assets.Desk.Given.{
  assign_rows-status, assign_rows-IsConsistent, assignment_saved-assignments,
  remove_assets-assignments, add_assets-assignments, put-put, set_assets-IsConsistent, saved_found,
}

-- How many assignments name an asset.
abbrev pub holders : ℕ → Table AssetAssignment → ℕ
holders j [] = 0
holders j ((i, x) ∷ t) = (if elem j x.assets then 1 else 0) + holders j t

holders-put_fresh :
    (j k : ℕ) (x : AssetAssignment) (t : Table AssetAssignment)
    → get k t ≡ none
    → holders j (put k x t) ≡ holders j t + (if elem j x.assets then 1 else 0)
holders-put_fresh j k x [] e = ground arith
holders-put_fresh j k x ((i, y) ∷ t) e = ground (arith, holders-put_fresh j k x t)

holders-exists :
    (j : ℕ) (t : Table AssetAssignment) → exists (λ z. elem j z.assets) t ≡ false → holders j t ≡ 0
holders-exists j [] e = refl
holders-exists j ((i, y) ∷ t) e = ground (arith, holders-exists j t)

filter-all_kept : (ids : List ℕ) → filter (λ p. not (elem p [])) ids ≡ ids
filter-all_kept [] = refl
filter-all_kept (i ∷ ids) = ap (λ r. i ∷ r) (filter-all_kept ids)

-- The row of a new assignment.
abbrev row : ℕ → List Listed → AssetAssignment
row employee ls = record { employee = employee; assets = map id_of ls }

module _ (today : ℤ) (by k employee : ℕ) (ls : List Listed) (s : Stock) where
  abbrev empty : AssetAssignment
  empty = record { employee = employee; assets = [] }

  create-assignments :
      (create today by k employee ls s).assignments ≡ put k (row employee ls) s.assignments
  unfolding create set_assets
  create-assignments =
      let s1 = assignment_saved today k empty s in
      let s2 = remove_assets today k empty [] s1 in
      let s3 = add_assets today k empty (filter (λ a. not (elem a [])) (map id_of ls)) s2 in
      (assign_rows-status today by employee 0 (map row_of ls) s3).1
      ∙ add_assets-assignments today k empty (filter (λ a. not (elem a [])) (map id_of ls)) s2
      ∙ rw (filter-all_kept (map id_of ls), filter-all_kept (map id_of ls))
          (ap (put k (row employee ls)) (
              remove_assets-assignments today k empty [] s1
              ∙ ap (put k empty) (assignment_saved-assignments today k empty s))
            ∙ put-put k (row employee ls) empty (put k empty s.assignments)
            ∙ put-put k (row employee ls) empty s.assignments)

  create-IsConsistent : IsConsistent s → IsConsistent (create today by k employee ls s)
  unfolding create
  create-IsConsistent c = assign_rows-IsConsistent today by employee (map row_of ls) _ (
      set_assets-IsConsistent today k empty (map id_of ls) _ (saved_found today k empty s)
        (assignment_saved-IsConsistent today k s c empty))

-- Each asset that the hardware test picks stands in one assignment at most.
pub record IsExclusive (hardware : ℕ → Bool) (s : Stock) : Type 0 where
  pub exclusive : (j : ℕ) → hardware j ≡ true → holders j s.assignments ≤ 1

true-ne-false : true ≢ false
true-ne-false h = cc

available-is_assigned :
    (l : Listed) (s : Stock)
    → IsConsistent s
    → get l.id s.assets ≡ some l.asset
    → can_be_given l ≡ true
    → l.software ≡ false
    → still_assigned l.id s ≡ false
unfolding can_be_given
available-is_assigned l s c e h hw = elim (Bool-cases (still_assigned l.id s)) [
  | inl still ↦
      let status = c.holds l.id l.asset.status still (ap status? e) in
      absurd (true-ne-false (sym h ∙ rw (hw, status) refl))
  | inr free ↦ free
]

-- A listed asset of hardware is free.
listed_free :
    (hardware : ℕ → Bool) (ls : List Listed) (s : Stock) (j : ℕ)
    → IsConsistent s
    → All
        (λ (l : Listed). (get l.id s.assets ≡ some l.asset) × (l.software ≡ not (hardware l.id)))
        ls
    → all can_be_given ls ≡ true
    → hardware j ≡ true
    → elem j (map id_of ls) ≡ true
    → still_assigned j s ≡ false
listed_free hardware [] s j c rows h hw e = cc
listed_free hardware (l ∷ ls) s j c rows h hw e = elim (Bool-cases (j == l.id)) [
  | inl same ↦
      let here = (==_iff j l.id).0 same in
      rw here (
        available-is_assigned l s c rows.0.0 (ground arith)
          (rows.0.1 ∙ ap (λ i. not (hardware i)) (sym here) ∙ ap not hw))
  | inr other ↦ listed_free hardware ls s j c rows.1 (ground arith) hw (ground arith)
]

note_all-same :
    (by : ℕ) (act : Action) (rs : Rows) (s : Stock)
    → ((note_all by act rs s).assignments ≡ s.assignments)
      × ((note_all by act rs s).assets ≡ s.assets)
unfolding note_all note
note_all-same by act [] s = (refl, refl)
note_all-same by act (r ∷ rs) s = note_all-same by act rs _

accepted :
    {A : Type 0} (b : Bool) (a a' : A)
    → (if b then some a else none) ≡ some a'
    → (b ≡ true) × (a ≡ a')
accepted true a a' h = (refl, some-eq h)
accepted false a a' h = cc

validate-all :
    (ls : List Listed) (types : List ℕ) → validate ls types ≡ true → all can_be_given ls ≡ true
unfolding validate
validate-all [] [] h = refl
validate-all [] (t ∷ ts) h = h
validate-all (l ∷ ls) ts h = h

create-IsExclusive :
    (today : ℤ) (by k employee : ℕ) (ls : List Listed) (s : Stock) (hardware : ℕ → Bool)
    → get k s.assignments ≡ none
    → IsConsistent s
    → All
        (λ (l : Listed). (get l.id s.assets ≡ some l.asset) × (l.software ≡ not (hardware l.id)))
        ls
    → all can_be_given ls ≡ true
    → IsExclusive hardware s
    → IsExclusive hardware (create today by k employee ls s)
unfolding still_assigned
create-IsExclusive today by k employee ls s hardware fresh c rows h x = record {
  exclusive = λ j hw.
      let now =
        ap (holders j) (create-assignments today by k employee ls s)
        ∙ holders-put_fresh j k (row employee ls) s.assignments fresh in
      let before = x.exclusive j hw in
      elim (Bool-cases (elem j (map id_of ls))) [
        | inl e ↦
            let free = holders-exists j s.assignments (listed_free hardware ls s j c rows h hw e) in
            ground (arith, now, free)
        | inr e ↦ ground (arith, now)
      ];
}

-- An assignment that the API accepts, under a fresh key: what is consistent stays so, and a piece of
-- hardware still stands in one assignment at most.
pub perform_create-IsExclusive :
    (today : ℤ) (by k : ℕ) (employee : Option ℕ) (ls : List Listed) (types : List ℕ) (s s' : Stock)
    (hardware : ℕ → Bool)
    → get k s.assignments ≡ none
    → IsConsistent s
    → All
        (λ (l : Listed). (get l.id s.assets ≡ some l.asset) × (l.software ≡ not (hardware l.id)))
        ls
    → IsExclusive hardware s
    → perform_create today by k employee ls types s ≡ some s'
    → IsConsistent s' × IsExclusive hardware s'
unfolding perform_create
perform_create-IsExclusive today by k employee ls types s s' hardware fresh c rows x h =
    let holder = get_or by employee in
    let made = create today by k holder ls s in
    let (ok, e) = accepted (validate ls types) _ s' h in
    let (same, kept) =
      note_all-same by (assigned_to holder) (asset_rows (map id_of ls) made) made in
    let exclusive =
      create-IsExclusive today by k holder ls s hardware fresh c rows (validate-all ls types ok)
        x in
    let consistent = create-IsConsistent today by k holder ls s c in
    let noted = note_all by (assigned_to holder) (asset_rows (map id_of ls) made) made in
    let unchanged : Same made noted = record {
      assignments = same;
      status = λ j. ap (λ t. status? (get j t)) kept;
    } in
    subst (λ t. IsConsistent t × IsExclusive hardware t) e
      (
        Same-IsConsistent made noted unchanged consistent,
        record {
          exclusive = λ j hw. subst (λ t. holders j t ≤ 1) (sym same) (exclusive.exclusive j hw);
        },
      )
