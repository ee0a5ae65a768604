-- ===== src/Crm/Matching/Linked.antt =====
-- Who a request is linked to (crm/models/request.py).
use optima_management.Base.{
  ◌≡◌, refl, sym, ap, ◌∙◌, Bool, true, false, ◌&&◌, Option, none, some, List, [], ◌∷◌, ◌==◌,
  ==_refl, if◌then◌else◌, if-both,
}
use mathlib.Core.Path.{subst}
use optima_management.Base.Lists.{filter, head?, All}
use optima_management.Crm.Types.{Text, Company, BaseContact, Contact, Lead, Request}
use optima_management.Crm.Matching.{
  filled, has_phone, single, or_else, first_q, by_email, by_phone, by_last_name, named,
  company_rows, by_company, search, set_contact, set_lead, link_lead, link, find_contact_or_lead,
  matches, clean, update_from, update_request_data,
}

-- A property of the value, if there is one.
abbrev pub AllSome {ℓ κ} : {A : Type ℓ} → (A → Type κ) → Option A → Type κ
AllSome P none = Unit
AllSome P (some a) = P a

module _ {ℓ} {A : Type ℓ} (p : A → Bool) where
  abbrev pub Passes : A → Type 0
  Passes a = p a ≡ true

  All-filter_implied :
      (q : A → Bool) (xs : List A) → ((a : A) → q a ≡ true → p a ≡ true) → All Passes (filter q xs)
  All-filter_implied q [] h = tt
  All-filter_implied q (x ∷ xs) h = go (q x) refl (All-filter_implied q xs h)
    where
      go :
          (b : Bool)
          → q x ≡ b
          → All Passes (filter q xs)
          → All Passes (if b then x ∷ filter q xs else filter q xs)
      go true e rest = (h x e, rest)
      go false e rest = rest

  All-filter_kept : (q : A → Bool) (xs : List A) → All Passes xs → All Passes (filter q xs)
  All-filter_kept q [] h = tt
  All-filter_kept q (x ∷ xs) (h, hs) =
      if-both (All Passes) (q x) _ _ (h, All-filter_kept q xs hs) (All-filter_kept q xs hs)

  AllSome-single : (xs : List A) → All Passes xs → AllSome Passes (single xs)
  AllSome-single [] h = tt
  AllSome-single (x ∷ []) h = h.0
  AllSome-single (x ∷ y ∷ xs) h = tt

  AllSome-head : (xs : List A) → All Passes xs → AllSome Passes (head? xs)
  AllSome-head [] h = tt
  AllSome-head (x ∷ xs) h = h.0

  AllSome-or_else :
      (o u : Option A) → AllSome Passes o → AllSome Passes u → AllSome Passes (or_else o u)
  AllSome-or_else none u h k = k
  AllSome-or_else (some a) u h k = h

and_right : (p q : Bool) → (p && q) ≡ true → q ≡ true
and_right true q h = h
and_right false q h = cc

module _ (iexact icontains : Text → Text → Bool) (parseaddr : Text → Text) where
  module _ {A : Type 0} (person : A → BaseContact) (company_name : A → Text) (r : Request)
      (rows : List A) where
    abbrev right : A → Bool
    right a = first_q iexact icontains parseaddr r (person a)

    by_email-right :
        All (Passes right) (by_email iexact icontains parseaddr person company_name r rows)
    unfolding by_email
    by_email-right =
        if-both (All (Passes right)) (filled r.email) _ []
          (All-filter_implied right _ rows (λ a h. and_right _ _ h)) tt

    by_phone-right :
        All (Passes right) (by_phone iexact icontains parseaddr person company_name r rows)
    unfolding by_phone
    by_phone-right =
        if-both (All (Passes right)) (has_phone r) _ []
          (All-filter_implied right _ rows (λ a h. and_right _ _ h)) tt

    by_last_name-right :
        All (Passes right) (by_last_name iexact icontains parseaddr person company_name r rows)
    unfolding by_last_name
    by_last_name-right =
        if-both (All (Passes right)) _ _ []
          (All-filter_implied right _ rows (λ a h. and_right _ _ (and_right _ _ h))) tt

    company_rows-right :
        All (Passes right) (company_rows iexact icontains parseaddr person company_name r rows)
    unfolding company_rows named
    company_rows-right =
        if-both (All (Passes right)) _ _ _ (All-filter_kept right _ _ by_last_name-right)
          (All-filter_implied right _ rows (λ a h. and_right _ _ (and_right _ _ h)))

    by_company-right :
        All (Passes right) (by_company iexact icontains parseaddr person company_name r rows)
    unfolding by_company
    by_company-right = if-both (All (Passes right)) _ _ [] company_rows-right tt

    -- Whoever is found has the first name of the request.
    pub search-right :
        AllSome (Passes right) (search iexact icontains parseaddr person company_name r rows)
    unfolding search
    search-right =
        let or = AllSome-or_else right in
        or _ _ (AllSome-single right _ by_email-right) (
          or _ _ (AllSome-single right _ by_phone-right) (
            or _ _ (AllSome-single right _ by_last_name-right) (
              or _ _ (AllSome-head right _ by_company-right) (
                or _ _ (AllSome-head right _ by_last_name-right) (
                  or _ _ (AllSome-head right _ by_phone-right)
                    (AllSome-head right _ by_email-right))))))

  -- What a request is linked to: it passes the validation, and the contact or the lead has the first
  -- name of the request as it was.
  pub record IsLinked (r r' : Request) : Type 0 where
    pub valid : clean r' ≡ true
    pub contact_named :
        AllSome (λ (c : Contact). first_q iexact icontains parseaddr r c.person ≡ true) r'.contact
    pub lead_named :
        AllSome (λ (l : Lead). first_q iexact icontains parseaddr r l.person ≡ true) r'.lead

  unlinked :
      (r r' : Request) → r'.contact ≡ none → r'.lead ≡ none → IsLinked r (update_request_data r')
  unfolding update_request_data update_from clean matches
  unlinked r r' f g =
      subst (IsLinked r) (sym (ap (λ o. update_from r' o r'.lead) f ∙ ap (update_from r' none) g))
        (record { valid = rw f refl; contact_named = rw f tt; lead_named = rw g tt })

  set_contact-IsLinked :
      (r : Request) (c : Contact) (k : Option Company)
      → r.company ≡ k
      → r.contact ≡ none
      → r.lead ≡ none
      → first_q iexact icontains parseaddr r c.person ≡ true
      → IsLinked r (update_request_data (set_contact r c k))
  unfolding set_contact update_request_data update_from clean matches
  set_contact-IsLinked r c none e f g h = record {
    valid = rw (==_refl c.company.id, g) refl;
    contact_named = h;
    lead_named = rw g tt;
  }
  set_contact-IsLinked r c (some k) e f g h =
      if-both (λ r'. IsLinked r (update_request_data r')) (k.id == c.company.id) _ _
        (record {
          valid = rw (==_refl c.company.id, g) refl;
          contact_named = h;
          lead_named = rw g tt;
        })
        (unlinked r (record r { verification_required = true }) f g)

  link-IsLinked :
      (r : Request) (o : Option Contact) (u : Option Lead)
      → r.contact ≡ none
      → r.lead ≡ none
      → AllSome (λ (c : Contact). first_q iexact icontains parseaddr r c.person ≡ true) o
      → AllSome (λ (l : Lead). first_q iexact icontains parseaddr r l.person ≡ true) u
      → IsLinked r (update_request_data (link r o u).1)
  unfolding link link_lead set_lead update_request_data update_from clean matches
  link-IsLinked r (some c) u f g h k = set_contact-IsLinked r c r.company refl f g h
  link-IsLinked r none (some l) f g h k =
      subst (IsLinked r) (sym (ap (λ o. update_from (set_lead r l) o (some l)) f))
        (record { valid = rw f refl; contact_named = rw f tt; lead_named = k })
  link-IsLinked r none none f g h k = unlinked r r f g

  -- What the forms and the mails do with a new request, which has no contact and no lead: behind
  -- the search and the update it passes the validation, and whoever it is linked to has its first
  -- name.
  pub find_contact_or_lead-IsLinked :
      (r : Request) (contacts : List Contact) (leads : List Lead)
      → r.contact ≡ none
      → r.lead ≡ none
      → IsLinked r
          (update_request_data (find_contact_or_lead iexact icontains parseaddr r contacts leads).1)
  unfolding find_contact_or_lead
  find_contact_or_lead-IsLinked r contacts leads f g =
      link-IsLinked r _ _ f g (search-right (λ c. c.person) (λ c. c.company.full_name) r contacts)
        (search-right (λ l. l.person) (λ l. l.company_name) r leads)
