-- ===== src/Examples/Desk.antt =====
-- Examples for the assets that are given out and taken back (assets).
use optima_management.Base.{ℕ, ◌≡◌, refl, true, false, none, some, [], ◌∷◌, get_or, arith}
use optima_management.Base.Int.{pos}
use optima_management.Base.Lists.{elem}
use optima_management.Base.Table.{get}
use optima_management.Assets.{
  available, assigned, Asset, AssetAssignment, Condition, Stock, still_assigned,
}
use optima_management.Assets.Consistent.{IsConsistent}
use optima_management.Assets.Desk.Return.{ReturnForm, return_assignment}
use optima_management.Assets.Desk.Returned.{IsBack}
use optima_management.Assets.Desk.Returned.Whole.{return_assignment_lem}
use optima_management.Assets.Desk.Give.{perform_create}
use optima_management.Assets.Desk.Given.Exclusive.{IsExclusive, perform_create-IsExclusive}

abbrev laptop : Asset
laptop = record {
  asset_tag = [];
  status = available;
  purchased_date = none;
  previously_used_by = none;
  laptop_age = none;
}

abbrev spare : Stock
spare = record { assets = (1, laptop) ∷ (2, laptop) ∷ []; assignments = []; history = [] }

spare-IsConsistent : IsConsistent spare
unfolding still_assigned
spare-IsConsistent = record { holds = λ j st h e. cc }

spare-IsExclusive : IsExclusive (λ j. true) spare
spare-IsExclusive = record { exclusive = λ j h. omega arith }

abbrev behind : Stock
behind = get_or spare (
    perform_create (pos 9) 5 3 (some 7) (record { id = 1; asset = laptop; software = false } ∷ [])
      [] spare)

given :
    perform_create
      (pos 9)
      5
      3
      (some 7)
      (record { id = 1; asset = laptop; software = false } ∷ [])
      []
      spare
    ≡ some behind
unfolding perform_create
given = refl

exclusive_example : IsConsistent behind × IsExclusive (λ j. true) behind
exclusive_example =
    perform_create-IsExclusive (pos 9) 5 3 (some 7)
      (record { id = 1; asset = laptop; software = false } ∷ []) [] spare behind (λ j. true) refl
      spare-IsConsistent ((refl, refl), tt) spare-IsExclusive given

abbrev holder : AssetAssignment
holder = record { employee = 7; assets = 1 ∷ [] }

abbrev lent : Stock
lent = record {
  assets = (1, record laptop { status = assigned }) ∷ [];
  assignments = (3, holder) ∷ [];
  history = [];
}

lent-IsConsistent : IsConsistent lent
unfolding still_assigned
lent-IsConsistent = record { holds = λ j st h e. ground arith }

abbrev form : ReturnForm
form = record { condition = λ j. Condition.damaged; image = λ j. true }

desk_example :
    let s' = (return_assignment true (pos 9) 5 form 3 lent).0 in
    IsConsistent s'
    × (get 3 s'.assignments ≡ some (record holder { assets = [] }))
    × ((j : ℕ) → elem j holder.assets ≡ true → IsBack form s' j)
desk_example =
    return_assignment_lem true (pos 9) 5 form 3 holder lent refl lent-IsConsistent (refl, tt)
