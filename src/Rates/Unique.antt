-- ===== src/Rates/Unique.antt =====
-- How many rates there are for a currency and a day, which `Rate.objects.get` in `get_rates`
-- (crm/utils/rates_loader.py) relies on, under `Payment.save` (crm/models/payment.py) and the loop.
use optima_management.Base.{
  some-eq, ℕ, zero, suc, ◌≤◌, ◌≡◌, ◌≢◌, refl, sym, ap, ◌∙◌, Bool, true, false, Option, none, some,
  List, [], ◌∷◌, ◌++◌, if◌then◌else◌, arith, ◌+◌, Bool-cases, inl, inr,
}
use mathlib.Core.Path.{subst}
use optima_management.Base.Lists.{any, filter, length}
use optima_management.Base.Table.{Table}
use optima_management.Rates.{
  Currency, Rate, approximate, Payment, is_received, is_rate_of, rate_of_payment, has_rate,
  currency_row, save_payment,
}
use optima_management.Rates.Load.{
  official_rate, replace_rate, store_official, Outcome, raised, Round, stop, go_on, stored, reply,
  pay_round, is_pending, first_pending, load_rates,
}

unfoldable pub rates_of : ℕ → ℕ → List Rate → ℕ
rates_of c d rates = length (filter (is_rate_of c d) rates)

unfoldable pub IsUnique : List Rate → Type 0
IsUnique rates = (c d : ℕ) → rates_of c d rates ≤ 1

rates_of-append :
    (c d : ℕ) (rates : List Rate) (r : Rate)
    → rates_of c d (rates ++ (r ∷ [])) ≡ rates_of c d rates + (if is_rate_of c d r then 1 else 0)
unfolding rates_of
rates_of-append c d [] r = ground arith
rates_of-append c d (x ∷ rates) r = ground (arith, rates_of-append c d rates r)

any-rates_of :
    (c d : ℕ) (rates : List Rate) → any (is_rate_of c d) rates ≡ false → rates_of c d rates ≡ 0
unfolding rates_of
any-rates_of c d [] h = refl
any-rates_of c d (r ∷ rates) h = ground (arith, any-rates_of c d rates)

IsUnique-append :
    (rates : List Rate) (r : Rate)
    → IsUnique rates
    → rates_of r.currency r.payment_date rates ≡ 0
    → IsUnique (rates ++ (r ∷ []))
unfolding IsUnique
IsUnique-append rates r u z c d = ground (arith, rates_of-append c d rates r, u c d, z)

rates_of-replace :
    (c d s m c' d' : ℕ) (rates : List Rate)
    → rates_of c' d' (replace_rate c d (official_rate c d s m) rates) ≡ rates_of c' d' rates
unfolding rates_of
rates_of-replace c d s m c' d' [] = refl
rates_of-replace c d s m c' d' (r ∷ rates) = ground (arith, rates_of-replace c d s m c' d' rates)

has_some_rate :
    (c d : ℕ) (rates : List Rate) (r : Rate)
    → is_rate_of c d r ≡ true
    → has_rate (some c) d (rates ++ (r ∷ [])) ≡ true
has_some_rate c d [] r h = ground arith
has_some_rate c d (x ∷ rates) r h = ground (arith, has_some_rate c d rates r)

KeepsOne : Payment → List Rate → List Rate → Type 0
KeepsOne p rates rates' = IsUnique rates' × (has_rate p.currency p.payment_date rates' ≡ true)

rate_of_payment-KeepsOne :
    (p : Payment) (o : Option Currency) (rates rates' : List Rate)
    → IsUnique rates
    → has_rate p.currency p.payment_date rates ≡ false
    → rate_of_payment p o rates ≡ some rates'
    → KeepsOne p rates rates'
unfolding rate_of_payment KeepsOne
rate_of_payment-KeepsOne p none rates rates' u n h = cc
rate_of_payment-KeepsOne p (some x) rates rates' u n h = go p.currency refl n h
  where
    approximate_rate : ℕ → Rate
    approximate_rate k = record {
      currency = k;
      payment_date = p.payment_date;
      rate_to_state_currency = x.rate_to_state_currency;
      rate_to_marketing_currency = x.rate_to_marketing_currency;
      rate_type = approximate;
    }

    go :
        (k : Option ℕ)
        → p.currency ≡ k
        → has_rate k p.payment_date rates ≡ false
        → (elim k [ none ↦ none | some k ↦ some (rates ++ (approximate_rate k ∷ [])) ])
          ≡ some rates'
        → KeepsOne p rates rates'
    go none e f q = cc
    go (some k) e f q = subst (KeepsOne p rates) (some-eq q) (
      IsUnique-append rates (approximate_rate k) u (any-rates_of k p.payment_date rates f),
      ap (λ c. has_rate c p.payment_date (rates ++ (approximate_rate k ∷ []))) e
          ∙ has_some_rate k p.payment_date rates (approximate_rate k) (ground arith),
    )

-- When a received payment is saved without an exception, there is a rate for its currency and day,
-- and still at most one for each currency and day.
pub save_payment-KeepsOne :
    (id : ℕ) (p : Payment) (payments : Table Payment) (currencies : Table Currency)
    (rates rates' : List Rate)
    → IsUnique rates
    → is_received p.status ≡ true
    → (save_payment id p payments currencies rates).1 ≡ some rates'
    → IsUnique rates' × (has_rate p.currency p.payment_date rates' ≡ true)
unfolding save_payment KeepsOne
save_payment-KeepsOne id p payments currencies rates rates' u r h =
    go (is_received p.status) (has_rate p.currency p.payment_date rates) r refl h
  where
    go :
        (a b : Bool)
        → a ≡ true
        → has_rate p.currency p.payment_date rates ≡ b
        → (if a
            then (if b
                then some rates
                else rate_of_payment p (currency_row p.currency currencies) rates)
            else some rates)
          ≡ some rates'
        → KeepsOne p rates rates'
    go true true e f q = subst (KeepsOne p rates) (some-eq q) (u, f)
    go true false e f q =
        rate_of_payment-KeepsOne p (currency_row p.currency currencies) rates rates' u f q
    go false b e f q = cc

store_official-IsUnique :
    (c d s m : ℕ) (rates : List Rate) (rs : List Rate)
    → rs ≡ filter (is_rate_of c d) rates
    → IsUnique rates
    → (rates' : List Rate) × (store_official c d s m rates rs ≡ some rates') × IsUnique rates'
unfolding store_official rates_of IsUnique
store_official-IsUnique c d s m rates [] e u = (
  rates ++ (official_rate c d s m ∷ []),
  refl,
  IsUnique-append rates (official_rate c d s m) u (sym (ap length e)),
)
store_official-IsUnique c d s m rates (r ∷ []) e u = (
  replace_rate c d (official_rate c d s m) rates,
  refl,
  λ c' d'. ground (arith, rates_of-replace c d s m c' d' rates, u c' d'),
)
store_official-IsUnique c d s m rates (r ∷ q ∷ rs) e u = ground (arith, ap length e, u c d)

GoesOn : Round → Type 0
GoesOn (stop o) = o ≢ raised
GoesOn (go_on rates) = IsUnique rates

reply-GoesOn :
    (c d : ℕ) (rates : List Rate) (x : Option (ℕ × ℕ)) → IsUnique rates → GoesOn (reply c d rates x)
unfolding reply GoesOn
reply-GoesOn c d rates none u = λ q. cc
reply-GoesOn c d rates (some (s, m)) u =
    let (rates', e, u') = store_official-IsUnique c d s m rates _ refl u in
    subst (λ o. GoesOn (stored o)) (sym e) u'

-- Every payment names a currency.
unfoldable pub AllPriced : List Payment → Type 0
AllPriced [] = Unit
AllPriced (p ∷ ps) = (p.currency ≢ none) × AllPriced ps

first_pending-priced :
    (today : ℕ) (rates : List Rate) (ps : List Payment) (p : Payment)
    → AllPriced ps
    → first_pending today rates ps ≡ some p
    → p.currency ≢ none
unfolding AllPriced
first_pending-priced today rates [] p a h = cc
first_pending-priced today rates (q ∷ ps) p (priced, a) h =
    elim (Bool-cases (is_pending today rates q)) [
      | inl y ↦
          λ n. priced (ap (λ o. elim o [ none ↦ p.currency | some x ↦ x.currency ]) (same y) ∙ n)
      | inr n ↦ first_pending-priced today rates ps p a (ground (arith, h, n))
    ]
  where
    same : is_pending today rates q ≡ true → some q ≡ some p
    same y = ground (arith, h, y)

pay_round-GoesOn :
    (quote : ℕ → ℕ → Option (ℕ × ℕ)) (rates : List Rate) (o : Option Payment)
    → IsUnique rates
    → ((p : Payment) → o ≡ some p → p.currency ≢ none)
    → GoesOn (pay_round quote rates o)
unfolding pay_round GoesOn
pay_round-GoesOn quote rates none u a = λ q. cc
pay_round-GoesOn quote rates (some p) u a = go p.currency (a p refl)
  where
    go :
        (k : Option ℕ)
        → k ≢ none
        → GoesOn (elim k [
          | none ↦ stop raised
          | some c ↦ reply c p.payment_date rates (quote c p.payment_date)
        ])
    go none n = absurd (n refl)
    go (some c) n = reply-GoesOn c p.payment_date rates (quote c p.payment_date) u

-- With at most one rate for each currency and day, and a currency in every payment, the loop raises
-- nothing, and there is still at most one rate for each currency and day.
pub load_rates-IsUnique :
    (n : ℕ) (quote : ℕ → ℕ → ℕ → Option (ℕ × ℕ)) (today : ℕ) (ps : List Payment) (rates : List Rate)
    (o : Outcome) (rates' : List Rate)
    → IsUnique rates
    → AllPriced ps
    → load_rates n quote today ps rates ≡ some (o, rates')
    → (o ≢ raised) × IsUnique rates'
unfolding load_rates GoesOn
load_rates-IsUnique zero quote today ps rates o rates' u a h = cc
load_rates-IsUnique (suc n) quote today ps rates o rates' u a h =
    go (λ r. load_rates-IsUnique n quote today ps r o rates')
      (pay_round (quote n) rates (first_pending today rates ps))
      (pay_round-GoesOn (quote n) rates _ u (λ p. first_pending-priced today rates ps p a)) h
  where
    Kept : Outcome → List Rate → Type 0
    Kept o r = (o ≢ raised) × IsUnique r

    Kept_pair : Outcome × List Rate → Type 0
    Kept_pair (o, r) = Kept o r

    go :
        ((r : List Rate)
          → IsUnique r
          → AllPriced ps
          → load_rates n quote today ps r ≡ some (o, rates')
          → Kept o rates')
        → (x : Round) → GoesOn x
        → (elim x as (λ _. Option (Outcome × List Rate)) [
          | stop o ↦ some (o, rates)
          | go_on r ↦ load_rates n quote today ps r
        ])
          ≡ some (o, rates')
        → Kept o rates'
    go rest (stop x) g q = subst Kept_pair (some-eq {A = Outcome × List Rate} q) (g, u)
    go rest (go_on r) g q = rest r g a q
