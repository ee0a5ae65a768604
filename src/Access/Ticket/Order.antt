-- ===== src/Access/Ticket/Order.antt =====
-- The order of the ticket texts of one day, which the numbering of `AccessRequest.save`
-- (resource_management/models.py) reads.
use optima_management.Base.{
  ℕ, ◌+◌, ◌≤◌, ◌<◌, ◌≡◌, refl, sym, ap, ◌∙◌, ◌≢◌, ◌⊎◌, inl, inr, true, false, ◌&&◌, Option, none,
  some, List, [], ◌∷◌, ◌++◌, ltb, arith, if◌then◌else◌, if-both,
}
use mathlib.Core.Path.{subst}
use native.Mathlib.Decide.{dec_lt}
use optima_management.Base.Lists.{length-append, same_text, same_text_refl}
use optima_management.Base.Table.{Table, AllRows, exists}
use optima_management.Base.Decimal.{parse, four_digits, zfill-show, parse-four_digits}
use optima_management.Access.Types.{AccessRequest, ok}
use optima_management.Access.Ticket.{
  starts_with, text_lt, last_ticket, last_four, day_prefix, ticket_of, number_after, next_ticket,
}

-- The ticket of a number of at most four digits.
abbrev pub day_ticket : List ℕ → ℕ → List ℕ
day_ticket date n = day_prefix date ++ four_digits n

-- The last number of a day: none is there, or some row has it.
abbrev pub IsUsed : List ℕ → Table AccessRequest → ℕ → Type 0
IsUsed date t m =
    (m ≡ 0)
    ⊎ (exists (λ (r : AccessRequest). same_text r.ticket_number (day_ticket date m)) t ≡ true)

-- A ticket is of another day, or has a number of this day that is at most `m`.
abbrev pub IsUpTo : List ℕ → ℕ → List ℕ → Type 0
IsUpTo date m s =
    (starts_with (day_prefix date) s ≡ false) ⊎ ((n : ℕ) × (n ≤ m) × (s ≡ day_ticket date n))

ltb-true : (a b : ℕ) → a < b → ltb a b ≡ true
ltb-true a b h = ground arith

ltb-false : (a b : ℕ) → ¬ (a < b) → ltb a b ≡ false
ltb-false a b h = ground arith

starts_with-append : (p s : List ℕ) → starts_with p (p ++ s) ≡ true
starts_with-append [] s = refl
starts_with-append (c ∷ p) s = ground (arith, starts_with-append p s)

text_lt-append : (p s t : List ℕ) → text_lt (p ++ s) (p ++ t) ≡ text_lt s t
text_lt-append [] s t = refl
text_lt-append (c ∷ p) s t = ground (arith, text_lt-append p s t)

text_lt-four_digits :
    (a b : ℕ) → a < 10000 → b < 10000 → text_lt (four_digits a) (four_digits b) ≡ ltb a b
text_lt-four_digits a b h k = ground arith

last_four-append :
    (p : List ℕ) (a b c d : ℕ) → last_four (p ++ a ∷ b ∷ c ∷ d ∷ []) ≡ a ∷ b ∷ c ∷ d ∷ []
last_four-append [] a b c d = refl
last_four-append (x ∷ p) a b c d =
    ground (arith, last_four-append p a b c d, length-append {0} p (a ∷ b ∷ c ∷ d ∷ []))

IsUpTo-mono : (date : List ℕ) (m k : ℕ) (s : List ℕ) → m ≤ k → IsUpTo date m s → IsUpTo date k s
IsUpTo-mono date m k s le (inl no_day) = inl no_day
IsUpTo-mono date m k s le (inr (n, h, e)) = inr (n, omega arith, e)

module _ (date : List ℕ) where
  pub AllUpTo-mono :
      (m k : ℕ) (t : Table AccessRequest)
      → m ≤ k
      → AllRows (λ r. IsUpTo date m r.ticket_number) t
      → AllRows (λ r. IsUpTo date k r.ticket_number) t
  AllUpTo-mono m k [] le h = tt
  AllUpTo-mono m k ((j, r) ∷ t) le h =
      (IsUpTo-mono date m k r.ticket_number le h.0, AllUpTo-mono m k t le h.1)

  none-AllUpTo :
      (m : ℕ) (t : Table AccessRequest)
      → AllRows (λ r. starts_with (day_prefix date) r.ticket_number ≡ false) t
      → AllRows (λ r. IsUpTo date m r.ticket_number) t
  none-AllUpTo m [] h = tt
  none-AllUpTo m ((j, r) ∷ t) h = (inl h.0, none-AllUpTo m t h.1)

  -- What the last ticket of the day says of the rows: there is none of the day, or its number is
  -- the greatest.
  abbrev LastIs : ℕ → Table AccessRequest → Option (List ℕ) → Type 0
  LastIs top t none = AllRows (λ r. starts_with (day_prefix date) r.ticket_number ≡ false) t
  LastIs top t (some s) =
      (m : ℕ) × (m ≤ top) × (s ≡ day_ticket date m) × AllRows (λ r. IsUpTo date m r.ticket_number) t

  starts_with-day_ticket : (n : ℕ) → starts_with (day_prefix date) (day_ticket date n) ≡ true
  starts_with-day_ticket n = starts_with-append (day_prefix date) (four_digits n)

  text_lt-day_ticket :
      (a b : ℕ) → a < 10000 → b < 10000 → text_lt (day_ticket date a) (day_ticket date b) ≡ ltb a b
  text_lt-day_ticket a b h k =
      text_lt-append (day_prefix date) (four_digits a) (four_digits b) ∙ text_lt-four_digits a b h k

  last_ticket-LastIs :
      (top : ℕ) (t : Table AccessRequest)
      → top < 10000
      → AllRows (λ r. IsUpTo date top r.ticket_number) t
      → LastIs top t (last_ticket (day_prefix date) t)
  unfolding last_ticket
  last_ticket-LastIs top [] small h = tt
  last_ticket-LastIs top ((j, r) ∷ t) small h =
      step h.0 (last_ticket (day_prefix date) t) (last_ticket-LastIs top t small h.1)
    where
      step :
          IsUpTo date top r.ticket_number
          → (o : Option (List ℕ)) → LastIs top t o
          → LastIs top ((j, r) ∷ t) (elim o [
            | none ↦
                if starts_with (day_prefix date) r.ticket_number then some r.ticket_number else none
            | some best ↦
                if starts_with (day_prefix date) r.ticket_number && text_lt best r.ticket_number
                then some r.ticket_number
                else some best
          ])
      step (inl no_day) none ih = rw no_day (no_day, ih)
      step (inl no_day) (some best) (m, bound, e, ih) = rw no_day (m, bound, e, (inl no_day, ih))
      step (inr (n, bound, e)) none ih =
          rw (e, starts_with-day_ticket n)
            (n, omega arith, refl, (inr (n, omega arith, refl), none-AllUpTo n t ih))
      step (inr (n, bound, e)) (some best) (m, bound', e', ih) =
          rw (e, e', starts_with-day_ticket n, text_lt-day_ticket m n (omega arith) (omega arith))
            (elim (dec_lt m n) [
              | yes p ↦ rw (ltb-true m n p) (
                n,
                omega arith,
                refl,
                (inr (n, omega arith, refl), AllUpTo-mono m n t (omega arith) ih),
              )
              | no p ↦ rw (ltb-false m n p) (m, bound', refl, (inr (n, omega arith, refl), ih))
            ])

  day_ticket_not_lt :
      (a b : ℕ) → a < 10000 → b < 10000 → day_ticket date a ≡ day_ticket date b → ¬ (a < b)
  day_ticket_not_lt a b h k e lt =
      let below : true ≡ false =
        sym (ltb-true a b lt)
        ∙ sym (text_lt-day_ticket a b h k)
        ∙ ap (λ s. text_lt (day_ticket date a) s) (sym e)
        ∙ text_lt-day_ticket a a h h
        ∙ ltb-false a a (omega arith) in
      cc

  day_ticket_injective :
      (a b : ℕ) → a < 10000 → b < 10000 → day_ticket date a ≡ day_ticket date b → a ≡ b
  day_ticket_injective a b h k e =
      omega (arith, day_ticket_not_lt a b h k e, day_ticket_not_lt b a k h (sym e))

  IsUpTo-ne : (m : ℕ) (s : List ℕ) → m < 9999 → IsUpTo date m s → s ≢ day_ticket date (m + 1)
  IsUpTo-ne m s h (inl no_day) e =
      let both : true ≡ false =
        sym (starts_with-day_ticket (m + 1))
        ∙ ap (starts_with (day_prefix date)) (sym e)
        ∙ no_day in
      cc
  IsUpTo-ne m s h (inr (n, le, e)) e' =
      omega (arith, day_ticket_injective n (m + 1) (omega arith) (omega arith) (sym e ∙ e'))

  AllUpTo-ne :
      (m : ℕ) (t : Table AccessRequest)
      → m < 9999
      → AllRows (λ r. IsUpTo date m r.ticket_number) t
      → AllRows (λ r. r.ticket_number ≢ day_ticket date (m + 1)) t
  AllUpTo-ne m [] h a = tt
  AllUpTo-ne m ((j, r) ∷ t) h a = (IsUpTo-ne m r.ticket_number h a.0, AllUpTo-ne m t h a.1)

  parse-last_four : (m : ℕ) → m < 10000 → parse (last_four (day_ticket date m)) ≡ some m
  parse-last_four m h =
      ap parse (last_four-append (day_prefix date) _ _ _ _) ∙ parse-four_digits m h

  number_after-day_ticket :
      (s : List ℕ) (m : ℕ)
      → m ≤ 9998
      → s ≡ day_ticket date m
      → number_after date (some s) ≡ ok (day_ticket date (m + 1))
  unfolding number_after
  number_after-day_ticket s m le e =
      ap (λ (o : Option ℕ). ticket_of date o)
        (ap (λ s'. parse (last_four s')) e ∙ parse-last_four m (omega arith))
      ∙ ap (λ z. ok (day_prefix date ++ z)) (zfill-show (m + 1) (omega arith))

  -- The last ticket stands in some row.
  Stored : Table AccessRequest → Option (List ℕ) → Type 0
  Stored t none = Unit
  Stored t (some s) = exists (λ (r : AccessRequest). same_text r.ticket_number s) t ≡ true

  own_ticket :
      (k : ℕ) (r : AccessRequest) (t : Table AccessRequest)
      → Stored ((k, r) ∷ t) (some r.ticket_number)
  unfolding Stored
  own_ticket k r t = rw (same_text_refl r.ticket_number) refl

  last_ticket-Stored : (p : List ℕ) (t : Table AccessRequest) → Stored t (last_ticket p t)
  unfolding last_ticket
  last_ticket-Stored p [] = unfold Stored in tt
  last_ticket-Stored p ((k, r) ∷ t) = go (last_ticket p t) (last_ticket-Stored p t)
    where
      go :
          (o : Option (List ℕ))
          → Stored t o
          → Stored ((k, r) ∷ t) (elim o [
            | none ↦ if starts_with p r.ticket_number then some r.ticket_number else none
            | some best ↦
                if starts_with p r.ticket_number && text_lt best r.ticket_number
                then some r.ticket_number
                else some best
          ])
      go none h =
          if-both (Stored ((k, r) ∷ t)) (starts_with p r.ticket_number) _ _ (own_ticket k r t)
            (unfold Stored in tt)
      go (some best) h =
          if-both (Stored ((k, r) ∷ t))
            (starts_with p r.ticket_number && text_lt best r.ticket_number) _ _ (own_ticket k r t)
            (unfold Stored in
              if-both (λ b. b ≡ true) (same_text r.ticket_number best) true _ refl
                (unfold Stored in h))

  last-IsUsed :
      (t : Table AccessRequest) (s : List ℕ) (m : ℕ)
      → last_ticket (day_prefix date) t ≡ some s
      → s ≡ day_ticket date m
      → IsUsed date t m
  unfolding Stored
  last-IsUsed t s m e q =
      inr (subst (Stored t) (e ∙ ap some q) (last_ticket-Stored (day_prefix date) t))

  -- While the numbers of a day are below 9999, the next number is one more than the last one, and
  -- no row has the new ticket.
  pub next_ticket-fresh :
      (t : Table AccessRequest)
      → AllRows (λ r. IsUpTo date 9998 r.ticket_number) t
      → (m : ℕ) × (m < 9999)
        × (next_ticket date t ≡ ok (day_ticket date (m + 1)))
        × IsUsed date t m
        × AllRows (λ r. IsUpTo date m r.ticket_number) t
        × AllRows (λ r. r.ticket_number ≢ day_ticket date (m + 1)) t
  unfolding next_ticket
  next_ticket-fresh t h =
      from (last_ticket (day_prefix date) t) refl (last_ticket-LastIs 9998 t (omega arith) h)
    where
      from :
          (o : Option (List ℕ))
          → last_ticket (day_prefix date) t ≡ o
          → LastIs 9998 t o
          → (m : ℕ) × (m < 9999)
            × (next_ticket date t ≡ ok (day_ticket date (m + 1)))
            × IsUsed date t m
            × AllRows (λ r. IsUpTo date m r.ticket_number) t
            × AllRows (λ r. r.ticket_number ≢ day_ticket date (m + 1)) t
      from none e a = (
        0,
        omega arith,
        rw e,
        inl refl,
        none-AllUpTo 0 t a,
        AllUpTo-ne 0 t (omega arith) (none-AllUpTo 0 t a),
      )
      from (some s) e (m, le, es, a) = (
        m,
        omega arith,
        rw e (number_after-day_ticket s m le es),
        last-IsUsed t s m e es,
        a,
        AllUpTo-ne m t (omega arith) a,
      )
