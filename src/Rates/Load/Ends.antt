-- ===== src/Rates/Load/Ends.antt =====
-- The end of the loop of `get_rates` (crm/utils/rates_loader.py).
use optima_management.Base.{
  ℕ, zero, suc, ◌≤◌, ◌<◌, ◌≡◌, ◌≢◌, inl, inr, refl, sym, ap, ◌∙◌, true, false, not, ◌||◌, Option,
  none, some, List, [], ◌∷◌, ◌++◌, if◌then◌else◌, arith, ◌+◌, Bool-cases,
}
use optima_management.Base.Lists.{filter, length}
use optima_management.Rates.{Rate, Payment, is_rate_of}
use optima_management.Rates.Load.{
  has_official, lacks_official, is_pending, first_pending, official_rate, replace_rate,
  store_official, Outcome, finished, raised, Round, stop, go_on, stored, reply, pay_round,
  load_rates,
}

official-append :
    (c d : ℕ) (rates new : List Rate)
    → has_official c d (rates ++ new) ≡ (has_official c d rates || has_official c d new)
official-append c d [] new = refl
official-append c d (r ∷ rs) new = ground (arith, official-append c d rs new)

-- One day and currency gets its official rate, and no other loses it.
replace-keeps :
    (c d s m : ℕ) (c' d' : ℕ) (rates : List Rate)
    → has_official c' d' rates ≡ true
    → has_official c' d' (replace_rate c d (official_rate c d s m) rates) ≡ true
replace-keeps c d s m c' d' [] h = h
replace-keeps c d s m c' d' (r ∷ rs) h = ground (arith, replace-keeps c d s m c' d' rs)

replace_self :
    (c d s m : ℕ) (rates : List Rate) (n : ℕ)
    → length (filter (is_rate_of c d) rates) ≡ suc n
    → has_official c d (replace_rate c d (official_rate c d s m) rates) ≡ true
replace_self c d s m [] n h = ground arith
replace_self c d s m (r ∷ rs) n h = ground (arith, replace_self c d s m rs n)

Grows : ℕ → ℕ → List Rate → List Rate → Type 0
Grows c d rates rates' =
    (has_official c d rates' ≡ true)
    × ((c' d' : ℕ) → has_official c' d' rates ≡ true → has_official c' d' rates' ≡ true)

store_official-Grows :
    (c d s m : ℕ) (rates rates' : List Rate) (rs : List Rate)
    → rs ≡ filter (is_rate_of c d) rates
    → store_official c d s m rates rs ≡ some rates'
    → Grows c d rates rates'
unfolding store_official Grows
store_official-Grows c d s m rates rates' [] e h =
    let same : some (rates ++ (official_rate c d s m ∷ [])) ≡ some rates' = h in
    (
      ground (arith, same, official-append c d rates (official_rate c d s m ∷ [])),
      λ c' d' o. ground (arith, same, official-append c' d' rates (official_rate c d s m ∷ [])),
    )
store_official-Grows c d s m rates rates' (r ∷ []) e h =
    let same : some (replace_rate c d (official_rate c d s m) rates) ≡ some rates' = h in
    let self = replace_self c d s m rates 0 (sym (ap length e)) in
    (
      ground (arith, same, self),
      λ c' d' o. ground (arith, same, replace-keeps c d s m c' d' rates o),
    )
store_official-Grows c d s m rates rates' (r ∷ q ∷ rs) e h = cc

-- How many payments are pending.
pending : ℕ → List Rate → List Payment → ℕ
pending today rates [] = 0
pending today rates (p ∷ ps) = (if is_pending today rates p then 1 else 0) + pending today rates ps

pending-length :
    (today : ℕ) (rates : List Rate) (ps : List Payment) → pending today rates ps ≤ length ps
unfolding pending
pending-length today rates [] = omega arith
pending-length today rates (p ∷ ps) = ground (arith, pending-length today rates ps)

lacks-Grows :
    (c d : ℕ) (rates rates' : List Rate) (o : Option ℕ) (d' : ℕ)
    → Grows c d rates rates'
    → lacks_official o d' rates' ≡ true
    → lacks_official o d' rates ≡ true
unfolding Grows
lacks-Grows c d rates rates' none d' g h = refl
lacks-Grows c d rates rates' (some c') d' (_, keeps) h = ground (arith, keeps c' d')

pending-Grows :
    (c d today : ℕ) (rates rates' : List Rate) (ps : List Payment)
    → Grows c d rates rates'
    → pending today rates' ps ≤ pending today rates ps
unfolding pending
pending-Grows c d today rates rates' [] g = omega arith
pending-Grows c d today rates rates' (p ∷ ps) g = ground (
  arith,
  pending-Grows c d today rates rates' ps g,
  lacks-Grows c d rates rates' p.currency p.payment_date g,
)

not_pending :
    (c d today : ℕ) (rates rates' : List Rate) (p : Payment)
    → Grows c d rates rates'
    → p.currency ≡ some c
    → p.payment_date ≡ d
    → is_pending today rates' p ≡ false
unfolding Grows
not_pending c d today rates rates' p (self, _) e f =
    let lacks : lacks_official p.currency p.payment_date rates' ≡ false =
      ap (λ o. lacks_official o p.payment_date rates') e
      ∙ ap (λ x. not (has_official c x rates')) f
      ∙ ap not self in
    ground (arith, lacks)

first_pending-pending :
    (today : ℕ) (rates : List Rate) (ps : List Payment) (p : Payment)
    → first_pending today rates ps ≡ some p
    → is_pending today rates p ≡ true
first_pending-pending today rates [] p h = cc
first_pending-pending today rates (q ∷ ps) p h =
    ground (arith, first_pending-pending today rates ps p)

-- The payment that got its rate is not pending any more.
pending-decreases :
    (c today : ℕ) (rates rates' : List Rate) (ps : List Payment) (p : Payment)
    → first_pending today rates ps ≡ some p
    → p.currency ≡ some c
    → Grows c p.payment_date rates rates'
    → pending today rates' ps < pending today rates ps
unfolding pending
pending-decreases c today rates rates' [] p h e g = cc
pending-decreases c today rates rates' (q ∷ ps) p h e g =
    elim (Bool-cases (is_pending today rates q)) [
      | inl y ↦
          let same : some q ≡ some p = ground (arith, h, y) in
          let current : is_pending today rates' q ≡ false =
            not_pending c p.payment_date today rates rates' q g
              (ap (λ o. elim o [ none ↦ p.currency | some x ↦ x.currency ]) same ∙ e)
              (ap (λ o. elim o [ none ↦ p.payment_date | some x ↦ x.payment_date ]) same) in
          ground (arith, y, current, pending-Grows c p.payment_date today rates rates' ps g)
      | inr n ↦ ground (
        arith,
        pending-decreases c today rates rates' ps p,
        lacks-Grows c p.payment_date rates rates' q.currency q.payment_date g,
      )
    ]

-- What a round that does not stop has done.
Pays : Option Payment → List Rate → List Rate → Type 0
Pays o rates rates' =
    (p : Payment) × (c : ℕ) × (o ≡ some p)
    × (p.currency ≡ some c)
    × Grows c p.payment_date rates rates'

reply-Grows :
    (c d : ℕ) (rates rates' : List Rate) (x : Option (ℕ × ℕ))
    → reply c d rates x ≡ go_on rates'
    → Grows c d rates rates'
unfolding reply
reply-Grows c d rates rates' none h = cc
reply-Grows c d rates rates' (some (s, m)) h =
    store_official-Grows c d s m rates rates' _ refl (is_stored _ h)
  where
    is_stored : (o : Option (List Rate)) → stored o ≡ go_on rates' → o ≡ some rates'
    is_stored none q = cc
    is_stored (some r) q = cc

pay_round-Pays :
    (quote : ℕ → ℕ → Option (ℕ × ℕ)) (rates rates' : List Rate) (o : Option Payment)
    → pay_round quote rates o ≡ go_on rates'
    → Pays o rates rates'
unfolding pay_round Pays
pay_round-Pays quote rates rates' none h = cc
pay_round-Pays quote rates rates' (some p) h = go p.currency refl h
  where
    go :
        (k : Option ℕ)
        → p.currency ≡ k
        → (elim k [
          | none ↦ stop raised
          | some c ↦ reply c p.payment_date rates (quote c p.payment_date)
        ])
          ≡ go_on rates'
        → Pays (some p) rates rates'
    go none e q = cc
    go (some c) e q =
        (p, c, refl, e, reply-Grows c p.payment_date rates rates' (quote c p.payment_date) q)

reply_not_finished :
    (c d : ℕ) (rates : List Rate) (x : Option (ℕ × ℕ)) → reply c d rates x ≢ stop finished
unfolding reply
reply_not_finished c d rates none h = cc
reply_not_finished c d rates (some (s, m)) h =
    stored_not_finished (store_official c d s m rates (filter (is_rate_of c d) rates)) h
  where
    stored_not_finished : (o : Option (List Rate)) → stored o ≢ stop finished
    stored_not_finished none q = cc
    stored_not_finished (some r) q = cc

pay_round-finished :
    (quote : ℕ → ℕ → Option (ℕ × ℕ)) (rates : List Rate) (o : Option Payment)
    → pay_round quote rates o ≡ stop finished
    → o ≡ none
unfolding pay_round
pay_round-finished quote rates none h = refl
pay_round-finished quote rates (some p) h = go p.currency h
  where
    go :
        (k : Option ℕ)
        → (elim k [
          | none ↦ stop raised
          | some c ↦ reply c p.payment_date rates (quote c p.payment_date)
        ])
          ≡ stop finished
        → some p ≡ none
    go none q = cc
    go (some c) q = absurd (reply_not_finished c p.payment_date rates (quote c p.payment_date) q)

grown :
    (c d : ℕ) (rates rates' : List Rate)
    → Grows c d rates rates'
    → (c' d' : ℕ) → has_official c' d' rates ≡ true
    → has_official c' d' rates' ≡ true
unfolding Grows
grown c d rates rates' (self, keeps) = keeps

-- How `get_rates` ends.
unfoldable pub Ended : ℕ → List Payment → List Rate → Option (Outcome × List Rate) → Type 0
Ended today ps rates x =
    (o : Outcome) × (rates' : List Rate) × (x ≡ some (o, rates'))
    × (o ≡ finished → first_pending today rates' ps ≡ none)
    × ((c d : ℕ) → has_official c d rates ≡ true → has_official c d rates' ≡ true)

module _ (quote : ℕ → ℕ → ℕ → Option (ℕ × ℕ)) (today : ℕ) (ps : List Payment) where
  enough_fuel :
      (n : ℕ) (rates : List Rate)
      → pending today rates ps < n
      → Ended today ps rates (load_rates n quote today ps rates)
  unfolding load_rates Ended Pays
  enough_fuel zero rates h = ground arith
  enough_fuel (suc n) rates h = go (λ rates' q. enough_fuel n rates' q) _ refl
    where
      go :
          ((rates' : List Rate)
            → pending today rates' ps < n
            → Ended today ps rates' (load_rates n quote today ps rates'))
          → (x : Round) → pay_round (quote n) rates (first_pending today rates ps) ≡ x
          → Ended today ps rates (elim x [
            | stop o ↦ some (o, rates)
            | go_on rates' ↦ load_rates n quote today ps rates'
          ])
      go rest (stop o) e =
          (o, rates, refl, (λ f. pay_round-finished (quote n) rates _ (e ∙ ap stop f)), λ c d y. y)
      go rest (go_on rates') e =
          let (p, c, first, cur, grows) = pay_round-Pays (quote n) rates rates' _ e in
          let less = pending-decreases c today rates rates' ps p first cur grows in
          let (o, last, eq, fin, keeps) = rest rates' (omega (arith, less, h)) in
          (
            o,
            last,
            eq,
            fin,
            λ c' d' y. keeps c' d' (grown c p.payment_date rates rates' grows c' d' y),
          )

  -- The loop ends: as many rounds as there are payments, and one, are enough, whatever the backend
  -- replies. Where it ends because nothing is left, every received payment of a past day has an
  -- official rate for its currency and day; and no day and currency loses its official rate.
  pub load_rates-Ended :
      (n : ℕ) (rates : List Rate)
      → length ps < n
      → Ended today ps rates (load_rates n quote today ps rates)
  load_rates-Ended n rates h = enough_fuel n rates (omega (arith, pending-length today rates ps, h))
