-- ===== src/Crm/Matching/Complete.antt =====
-- When a request is linked (crm/models/request.py).
use optima_management.Base.{
  ◌≡◌, ◌⊎◌, inl, inr, Bool-cases, refl, Bool, true, false, ◌&&◌, ◌||◌, Option, none, some, List, [],
  ◌∷◌, arith, is_some, ◌==◌,
}
use optima_management.Base.Lists.{filter, any, head?}
use optima_management.Crm.Types.{Text, Company, BaseContact, Contact, Lead, Request}
use optima_management.Crm.Matching.{
  filled, single, or_else, first_q, email_q, by_email, by_phone, by_last_name, by_company, search,
  set_contact, set_lead, link_lead, link, find_contact_or_lead,
}

-- A row with the first name and the address of the request.
abbrev pub is_sender :
    {A : Type 0}
    → (Text → Text → Bool)
    → (Text → Text → Bool)
    → (Text → Text)
    → (A → BaseContact)
    → Request
    → A
    → Bool
is_sender iexact icontains parseaddr person r a =
    email_q iexact icontains parseaddr r (person a)
    && first_q iexact icontains parseaddr r (person a)

-- The found contact is set, or the company of the request is another than the contact's; without a
-- contact the found lead is set.
abbrev pub IsLinkedTo : Request → Option Contact → Option Lead → Request → Type 0
IsLinkedTo r o u r' =
    ((c : Contact) × (o ≡ some c)
      × ((r'.contact ≡ some c)
          ⊎ ((k : Company) × (r.company ≡ some k) × ((k.id == c.company.id) ≡ false))))
    ⊎ ((l : Lead) × (o ≡ none) × (u ≡ some l) × (r'.lead ≡ some l))

filled-filter :
    {A : Type 0} (p : A → Bool) (xs : List A) → any p xs ≡ true → filled (filter p xs) ≡ true
filled-filter p [] h = cc
filled-filter p (x ∷ xs) h = ground (arith, h, filled-filter p xs)

is_some-head : {A : Type 0} (xs : List A) → filled xs ≡ true → is_some (head? xs) ≡ true
is_some-head [] h = cc
is_some-head (x ∷ xs) h = refl

is_some-or_else : {A : Type 0} (o u : Option A) → is_some u ≡ true → is_some (or_else o u) ≡ true
is_some-or_else none u h = h
is_some-or_else (some a) u h = refl

or_mono :
    (a b c d : Bool)
    → (a ≡ true → c ≡ true)
    → (b ≡ true → d ≡ true)
    → (a || b) ≡ true
    → (c || d) ≡ true
or_mono a b c d f g h = ground (arith, f, g, h)

module _ (iexact icontains : Text → Text → Bool) (parseaddr : Text → Text) where
  module _ {A : Type 0} (person : A → BaseContact) (company_name : A → Text) (r : Request)
      (rows : List A) where
    head-by_email :
        filled r.email ≡ true
        → any (is_sender iexact icontains parseaddr person r) rows ≡ true
        → is_some (head? (by_email iexact icontains parseaddr person company_name r rows)) ≡ true
    unfolding by_email
    head-by_email e h =
        rw e (is_some-head _ (filled-filter (is_sender iexact icontains parseaddr person r) rows h))

    search-is_some :
        filled r.email ≡ true
        → any (is_sender iexact icontains parseaddr person r) rows ≡ true
        → is_some (search iexact icontains parseaddr person company_name r rows) ≡ true
    unfolding search
    search-is_some e h =
        let mailed = by_email iexact icontains parseaddr person company_name r rows in
        let phoned = by_phone iexact icontains parseaddr person company_name r rows in
        let last = by_last_name iexact icontains parseaddr person company_name r rows in
        is_some-or_else (single mailed) _ (
          is_some-or_else (single phoned) _ (
            is_some-or_else (single last) _ (
              is_some-or_else
                (head? (by_company iexact icontains parseaddr person company_name r rows)) _
                (is_some-or_else (head? last) _
                  (is_some-or_else (head? phoned) (head? mailed) (head-by_email e h))))))

  link_found :
      (r : Request) (o : Option Contact) (u : Option Lead)
      → (is_some o || is_some u) ≡ true
      → ((link r o u).0 ≡ true)
        × ((link r o u).1.verification_required ≡ true)
        × IsLinkedTo r o u (link r o u).1
  unfolding link link_lead set_contact set_lead
  link_found r (some c) u h = let (v, t) = contact_set r.company refl in (refl, v, t)
    where
      contact_set :
          (k : Option Company)
          → r.company ≡ k
          → ((set_contact r c k).verification_required ≡ true)
            × IsLinkedTo r (some c) u (set_contact r c k)
      contact_set none e = (refl, inl (c, refl, inl refl))
      contact_set (some k) e = elim (Bool-cases (k.id == c.company.id)) [
        | inl same ↦ rw same (refl, inl (c, refl, inl refl))
        | inr other ↦ rw other (refl, inl (c, refl, inr (k, e, other)))
      ]
  link_found r none (some l) h = (refl, refl, inr (l, refl, refl, refl))
  link_found r none none h = cc

  -- Where some contact or some lead has the first name and the address of a request with an address,
  -- the search succeeds and marks the request for verification. The contact that it finds is set,
  -- unless the request has another company than that contact; without a contact the lead that it
  -- finds is set.
  pub find_contact_or_lead_found :
      (r : Request) (contacts : List Contact) (leads : List Lead)
      → filled r.email ≡ true
      → (any (is_sender iexact icontains parseaddr (λ (c : Contact). c.person) r) contacts
          || any (is_sender iexact icontains parseaddr (λ (l : Lead). l.person) r) leads)
        ≡ true
      → let x = find_contact_or_lead iexact icontains parseaddr r contacts leads in
        (x.0 ≡ true)
        × (x.1.verification_required ≡ true)
        × IsLinkedTo r
            (search iexact icontains parseaddr
              (λ (c : Contact). c.person)
              (λ c. c.company.full_name)
              r
              contacts)
            (search iexact icontains parseaddr
              (λ (l : Lead). l.person)
              (λ l. l.company_name)
              r
              leads)
            x.1
  unfolding find_contact_or_lead
  find_contact_or_lead_found r contacts leads e h =
      let c = search-is_some (λ (x : Contact). x.person) (λ x. x.company.full_name) r contacts e in
      let l = search-is_some (λ (x : Lead). x.person) (λ x. x.company_name) r leads e in
      link_found r _ _ (or_mono _ _ _ _ c l h)
