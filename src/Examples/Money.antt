-- ===== src/Examples/Money.antt =====
-- Examples for the rates (crm) and the stock of assets (assets).
use optima_management.Base.{
  ℕ, ◌≡◌, ◌≢◌, refl, true, false, Option, none, some, List, [], ◌∷◌, arith,
}
use optima_management.Base.Int.{pos}
use optima_management.Base.Table.{get}
use optima_management.Rates.{one_rate, Currency, Rate, approximate, Payment, received, save_payment}
use optima_management.Rates.Load.{finished, official_rate, load_rates}
use optima_management.Rates.Load.Ends.{Ended, load_rates-Ended}
use optima_management.Rates.Unique.{rates_of, IsUnique, AllPriced}
use optima_management.Assets.{
  available, assigned, Asset, AssetAssignment, good, Stock, still_assigned, assignment_saved,
  remove_assets, status_after, asset_returned,
}
use optima_management.Assets.Reach.{saved, removed, here, next, Steps-IsConsistent}
use optima_management.Assets.Status.{status_of}
use optima_management.Assets.Consistent.{IsConsistent, previous_user, asset_returned_lem}

abbrev paid : Payment
paid = record { amount = 500; currency = some 2; payment_date = 8; status = received }

abbrev rates : List Rate
rates = record (official_rate 2 8 100 90) { rate_type = approximate } ∷ []

abbrev loaded : List Rate
loaded = official_rate 2 8 110 95 ∷ []

abbrev quote : ℕ → ℕ → ℕ → Option (ℕ × ℕ)
quote n c d = some (110, 95)

rates-IsUnique : IsUnique rates
unfolding IsUnique rates_of
rates-IsUnique c d = ground arith

paid-AllPriced : AllPriced (paid ∷ [])
unfolding AllPriced
paid-AllPriced = ((λ e. cc), tt)

Ended_example : Ended 10 (paid ∷ []) rates (load_rates 2 quote 10 (paid ∷ []) rates)
Ended_example = load_rates-Ended quote 10 (paid ∷ []) 2 rates (ground arith)

loads : load_rates 2 quote 10 (paid ∷ []) rates ≡ some (finished, loaded)
unfolding load_rates
loads = refl

abbrev rupee : Currency
rupee = record {
  rate_to_state_currency = 100;
  rate_to_marketing_currency = 90;
  is_state_currency = false;
  is_marketing_currency = false;
  auto_update = true;
}

none-IsUnique : IsUnique []
unfolding IsUnique rates_of
none-IsUnique c d = ground arith

pays : (save_payment 4 paid [] ((2, rupee) ∷ []) []).1 ≡ some rates
unfolding save_payment
pays = refl

abbrev laptop : Asset
laptop = record {
  asset_tag = b'L' ∷ [];
  status = assigned;
  purchased_date = some (pos 10);
  previously_used_by = none;
  laptop_age = none;
}

abbrev phone : Asset
phone = record laptop { asset_tag = b'P' ∷ []; status = available }

abbrev given : AssetAssignment
given = record { employee = 3; assets = 1 ∷ [] }

abbrev stock : Stock
stock = record {
  assets = (1, laptop) ∷ (2, phone) ∷ [];
  assignments = (6, given) ∷ [];
  history = [];
}

stock-IsConsistent : IsConsistent stock
unfolding still_assigned
stock-IsConsistent = record { holds = λ j st h e. ground arith }

is_given : get 6 (assignment_saved (pos 40) 6 given stock).assignments ≡ some given
unfolding assignment_saved
is_given = refl

steps_example :
    IsConsistent (remove_assets (pos 41) 6 given (1 ∷ []) (assignment_saved (pos 40) 6 given stock))
steps_example =
    Steps-IsConsistent
      (next (next here (saved (pos 40) 6 given)) (removed (pos 41) 6 given (1 ∷ []) is_given))
      stock-IsConsistent

returned_example :
    let s' = asset_returned (pos 40) 6 given 1 laptop good stock in
    IsConsistent s'
    × (status_of 1 s'
        ≡ some
            (status_after (still_assigned 1 (remove_assets (pos 40) 6 given (1 ∷ []) stock)) good))
    × (previous_user 1 s' ≡ some 3)
    × ((j : ℕ) → j ≢ 1 → status_of j s' ≡ status_of j stock)
returned_example = asset_returned_lem (pos 40) 6 stock stock-IsConsistent given 1 laptop good refl

abbrev home : Currency
home = record rupee {
  is_state_currency = true;
  is_marketing_currency = true;
  rate_to_marketing_currency = one_rate;
}

abbrev reply_all : ℕ → Option (ℕ × ℕ)
reply_all k = some (110, 95)
