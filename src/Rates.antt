-- ===== src/Rates.antt =====
-- Currencies, payments and rates (crm/models/payment.py) and the daily loading of the rates
-- (crm/utils/rates_loader.py). A rate is a number of units of the eighth decimal place, a date a
-- number of days; names, contract numbers and texts are left out.
pub mod Load
pub mod Unique
pub mod Currencies
use optima_management.Base.{
  ℕ, suc, Bool, true, false, not, ◌&&◌, ◌||◌, Option, none, some, List, [], ◌∷◌, ◌++◌, ◌==◌,
  if◌then◌else◌,
}
use optima_management.Base.Lists.{any}
use optima_management.Base.Table.{Table, get, put}

pub record Currency : Type 0 where
  pub rate_to_state_currency : ℕ
  pub rate_to_marketing_currency : ℕ
  pub is_state_currency : Bool
  pub is_marketing_currency : Bool
  pub auto_update : Bool

pub data RateType : Type 0 where
  approximate : RateType
  official : RateType

pub record Rate : Type 0 where
  pub currency : ℕ
  pub payment_date : ℕ
  pub rate_to_state_currency : ℕ
  pub rate_to_marketing_currency : ℕ
  pub rate_type : RateType

pub data PaymentStatus : Type 0 where
  received : PaymentStatus
  guaranteed : PaymentStatus
  high_probability : PaymentStatus
  low_probability : PaymentStatus

pub record Payment : Type 0 where
  pub amount : ℕ
  pub currency : Option ℕ
  pub payment_date : ℕ
  pub status : PaymentStatus

-- 1.0 in units of the eighth decimal place.
abbrev pub one_rate : ℕ
one_rate = 100000000

abbrev pub is_received : PaymentStatus → Bool
is_received received = true
is_received guaranteed = false
is_received high_probability = false
is_received low_probability = false

abbrev pub is_official : RateType → Bool
is_official official = true
is_official approximate = false

-- `Currency.save`: for the state currency it sets the flag to 1.0 and not the rate.
unfoldable pub save_currency : Currency → Currency
save_currency c =
    let c' = if c.is_state_currency then record c { is_state_currency = true } else c in
    if c'.is_marketing_currency then record c' { rate_to_marketing_currency = one_rate } else c'

-- A rate of this currency on this day.
abbrev pub is_rate_of : ℕ → ℕ → Rate → Bool
is_rate_of c d r = r.currency == c && r.payment_date == d

-- The rates that a received payment leaves: an approximate one if there was none. `none` is an
-- `AttributeError` (no currency) or `DoesNotExist` (its row is gone) after the payment is stored.
unfoldable pub rate_of_payment : Payment → Option Currency → List Rate → Option (List Rate)
rate_of_payment p none rates = none
rate_of_payment p (some c) rates = elim p.currency [
  | none ↦ none
  | some k ↦ some (
      rates
      ++ (record {
        currency = k;
        payment_date = p.payment_date;
        rate_to_state_currency = c.rate_to_state_currency;
        rate_to_marketing_currency = c.rate_to_marketing_currency;
        rate_type = approximate;
      }
          ∷ []))
]

abbrev pub has_rate : Option ℕ → ℕ → List Rate → Bool
has_rate none d rates = false
has_rate (some c) d rates = any (is_rate_of c d) rates

abbrev pub currency_row : Option ℕ → Table Currency → Option Currency
currency_row none t = none
currency_row (some k) t = get k t

-- `Payment.save`: the payments, and the rates or the exception.
unfoldable pub save_payment :
    ℕ → Payment → Table Payment → Table Currency → List Rate → Table Payment × Option (List Rate)
unfolding rate_of_payment
save_payment id p payments currencies rates = (
  put id p payments,
  if is_received p.status
      then (if has_rate p.currency p.payment_date rates
          then some rates
          else rate_of_payment p (currency_row p.currency currencies) rates)
      else some rates,
)
