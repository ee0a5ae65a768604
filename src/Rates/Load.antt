-- ===== src/Rates/Load.antt =====
-- `get_rates` (crm/utils/rates_loader.py): first the currencies, then the payments without an
-- official rate. The backend is an argument of `get_rates`, here its reply to each call, `none` for
-- an error; a payment's reply also depends on the number of the call.
pub mod Ends
use optima_management.Base.{
  ℕ, zero, suc, Bool, true, false, not, ◌&&◌, Option, none, some, List, [], ◌∷◌, ◌++◌, ◌==◌, ltb,
  if◌then◌else◌,
}
use optima_management.Base.Lists.{any, filter, length}
use optima_management.Base.Table.{Table}
use optima_management.Rates.{
  Currency, Rate, RateType, official, Payment, is_received, is_official, is_rate_of, save_currency,
}

abbrev pub quoted : Option (ℕ × ℕ) → Currency → Currency
quoted none c = c
quoted (some (s, m)) c =
    save_currency (record c { rate_to_state_currency = s; rate_to_marketing_currency = m })

unfoldable pub update_currencies : (ℕ → Option (ℕ × ℕ)) → Table Currency → Table Currency
update_currencies quote [] = []
update_currencies quote ((k, c) ∷ t) =
    (k, if c.auto_update then quoted (quote k) c else c) ∷ update_currencies quote t

abbrev pub has_official : ℕ → ℕ → List Rate → Bool
has_official c d rates = any (λ r. is_rate_of c d r && is_official r.rate_type) rates

-- The subquery finds nothing for a payment without a currency.
abbrev pub lacks_official : Option ℕ → ℕ → List Rate → Bool
lacks_official none d rates = true
lacks_official (some c) d rates = not (has_official c d rates)

abbrev pub is_pending : ℕ → List Rate → Payment → Bool
is_pending today rates p =
    ltb p.payment_date today
    && is_received p.status
    && lacks_official p.currency p.payment_date rates

abbrev pub first_pending : ℕ → List Rate → List Payment → Option Payment
first_pending today rates [] = none
first_pending today rates (p ∷ ps) =
    if is_pending today rates p then some p else first_pending today rates ps

abbrev pub official_rate : ℕ → ℕ → ℕ → ℕ → Rate
official_rate c d s m = record {
  currency = c;
  payment_date = d;
  rate_to_state_currency = s;
  rate_to_marketing_currency = m;
  rate_type = official;
}

-- The row that `Rate.objects.get` returned is saved again.
abbrev pub replace_rate : ℕ → ℕ → Rate → List Rate → List Rate
replace_rate c d new [] = []
replace_rate c d new (r ∷ rs) = (if is_rate_of c d r then new else r) ∷ replace_rate c d new rs

-- `none` is `MultipleObjectsReturned`.
unfoldable pub store_official : ℕ → ℕ → ℕ → ℕ → List Rate → List Rate → Option (List Rate)
store_official c d s m rates [] = some (rates ++ (official_rate c d s m ∷ []))
store_official c d s m rates (r ∷ []) = some (replace_rate c d (official_rate c d s m) rates)
store_official c d s m rates (r ∷ q ∷ rs) = none

pub data Outcome : Type 0 where
  -- No payment is pending.
  finished : Outcome
  -- The backend reported an error.
  backend_error : Outcome
  -- An exception ends the thread's turn.
  raised : Outcome

pub data Round : Type 0 where
  stop : Outcome → Round
  go_on : List Rate → Round

abbrev pub stored : Option (List Rate) → Round
stored none = stop raised
stored (some rates) = go_on rates

unfoldable pub reply : ℕ → ℕ → List Rate → Option (ℕ × ℕ) → Round
unfolding store_official
reply c d rates none = stop backend_error
reply c d rates (some (s, m)) =
    stored (store_official c d s m rates (filter (is_rate_of c d) rates))

unfoldable pub pay_round : (ℕ → ℕ → Option (ℕ × ℕ)) → List Rate → Option Payment → Round
unfolding reply
pay_round quote rates none = stop finished
pay_round quote rates (some p) = elim p.currency [
  | none ↦ stop raised
  | some c ↦ reply c p.payment_date rates (quote c p.payment_date)
]

-- The `while True` of `get_rates` on fuel, with the rates at its end; `none` is no fuel left.
unfoldable pub load_rates :
    ℕ → (ℕ → ℕ → ℕ → Option (ℕ × ℕ)) → ℕ → List Payment → List Rate → Option (Outcome × List Rate)
unfolding pay_round
load_rates zero quote today ps rates = none
load_rates (suc n) quote today ps rates =
    elim (pay_round (quote n) rates (first_pending today rates ps)) [
      | stop o ↦ some (o, rates)
      | go_on rates' ↦ load_rates n quote today ps rates'
    ]
