-- ===== src/Crm/Matching.antt =====
-- `find_contact_or_lead`, `_set_contact`, `clean` and `update_request_data` of a request
-- (crm/models/request.py), with `add_phone_q_params` (common/utils/helpers.py). The comparisons of
-- the database without case and Python's `parseaddr` are parameters.
pub mod Linked
pub mod Complete
use optima_management.Base.{
  ℕ, Bool, true, false, not, ◌&&◌, ◌||◌, Option, none, some, List, [], ◌∷◌, ◌==◌, ltb, is_some,
  if◌then◌else◌,
}
use optima_management.Base.Decimal.{is_digit}
use optima_management.Base.Lists.{same_text, length, filter, any, head?}
use optima_management.Crm.Types.{Text, Company, BaseContact, Contact, Lead, Request}

-- A text or a list is true in a Python condition.
abbrev pub filled {ℓ} : {A : Type ℓ} → List A → Bool
filled [] = false
filled (x ∷ xs) = true

unfoldable pub starts_with : Text → Text → Bool
starts_with [] t = true
starts_with (a ∷ s) [] = false
starts_with (a ∷ s) (b ∷ t) = a == b && starts_with s t

unfoldable pub occurs_in : Text → Text → Bool
unfolding starts_with
occurs_in s [] = starts_with s []
occurs_in s (b ∷ t) = starts_with s (b ∷ t) || occurs_in s t

-- The digits are those from 0 to 9; the others that `isdigit` takes are left out.
abbrev pub digits : Text → Text
digits = filter is_digit

-- The query of `add_phone_q_params` is empty for fewer digits than five. Its expression allows
-- anything but digits between the digits.
abbrev pub has_phone : Request → Bool
has_phone r = ltb 4 (length (digits r.phone))

unfoldable pub phone_q : Text → BaseContact → Bool
unfolding occurs_in
phone_q phone p =
    occurs_in (digits phone) (digits p.phone)
    || (occurs_in (digits phone) (digits p.other_phone)
        || occurs_in (digits phone) (digits p.mobile))

-- The only row.
abbrev pub single {ℓ} : {A : Type ℓ} → List A → Option A
single (a ∷ []) = some a
single _ = none

abbrev pub or_else {ℓ} : {A : Type ℓ} → Option A → Option A → Option A
or_else (some a) o = some a
or_else none o = o

-- `_set_contact` for a contact: a company that is set already must be the contact's.
unfoldable pub set_contact : Request → Contact → Option Company → Request
set_contact r c none = record r {
  contact = some c;
  company = some c.company;
  verification_required = true;
}
set_contact r c (some k) =
    if k.id == c.company.id
    then record r { contact = some c; verification_required = true }
    else record r { verification_required = true }

-- `_set_contact` for a lead.
unfoldable pub set_lead : Request → Lead → Request
set_lead r l = record r { lead = some l; verification_required = true }

unfoldable pub link_lead : Request → Option Lead → Bool × Request
unfolding set_lead
link_lead r none = (false, r)
link_lead r (some l) = (true, set_lead r l)

unfoldable pub link : Request → Option Contact → Option Lead → Bool × Request
unfolding set_contact link_lead
link r (some c) o = (true, set_contact r c r.company)
link r none o = link_lead r o

module _ (iexact icontains : Text → Text → Bool) (parseaddr : Text → Text) where
  unfoldable pub first_q : Request → BaseContact → Bool
  first_q r p = iexact p.first_name r.first_name

  unfoldable pub last_q : Request → BaseContact → Bool
  last_q r p = iexact p.last_name r.last_name

  unfoldable pub email_q : Request → BaseContact → Bool
  email_q r p =
      icontains p.email (parseaddr r.email) || icontains p.secondary_email (parseaddr r.email)

  -- `Q(name__icontains=...) | Q(name__in=...)`; the second looks for the name among the letters.
  unfoldable pub company_q : Request → Text → Bool
  company_q r name =
      icontains name r.company_name || any (λ c. same_text name (c ∷ [])) r.company_name

  module _ {A : Type 0} (person : A → BaseContact) (company_name : A → Text) (r : Request)
      (rows : List A) where
    -- `contacts1`
    unfoldable pub by_email : List A
    unfolding first_q email_q
    by_email =
        if filled r.email
        then filter (λ a. email_q r (person a) && first_q r (person a)) rows
        else []

    -- `args` behind the second query.
    unfoldable pub email_phone : A → Bool
    unfolding by_email phone_q email_q
    email_phone a =
        if ltb 1 (length by_email)
        then email_q r (person a) && phone_q r.phone (person a)
        else (filled r.email && email_q r (person a)) || phone_q r.phone (person a)

    -- `contacts2`
    unfoldable pub by_phone : List A
    unfolding email_phone first_q
    by_phone = if has_phone r then filter (λ a. email_phone a && first_q r (person a)) rows else []

    -- `contacts3`
    unfoldable pub by_last_name : List A
    unfolding by_phone email_phone first_q last_q
    by_last_name =
        if filled r.last_name && ltb 1 (length by_phone)
        then filter (λ a. email_phone a && (last_q r (person a) && first_q r (person a))) rows
        else []

    -- `kwargs` behind the third query.
    unfoldable pub named : A → Bool
    unfolding first_q last_q
    named a = (if filled r.last_name then last_q r (person a) else true) && first_q r (person a)

    -- `contacts4`, and when it is looked for.
    unfoldable pub company_rows : List A
    unfolding by_last_name named company_q
    company_rows =
        if ltb 1 (length by_last_name)
        then filter (λ a. company_q r (company_name a)) by_last_name
        else filter (λ a. company_q r (company_name a) && named a) rows

    unfoldable pub by_company : List A
    unfolding by_email by_phone by_last_name company_rows
    by_company =
        if (filled r.company_name && (filled by_last_name || (filled by_phone || filled by_email)))
          || filled r.last_name
        then company_rows
        else []

    -- One round of the loop: the row that is linked. A round that goes on has found nothing, so the
    -- next one takes over empty query sets.
    unfoldable pub search : Option A
    unfolding by_email by_phone by_last_name by_company
    search = or_else (single by_email) (
        or_else (single by_phone) (
          or_else (single by_last_name) (
            or_else (head? by_company)
              (or_else (head? by_last_name) (or_else (head? by_phone) (head? by_email))))))

  unfoldable pub find_contact_or_lead : Request → List Contact → List Lead → Bool × Request
  unfolding search link
  find_contact_or_lead r contacts leads =
      link r (search (λ (c : Contact). c.person) (λ c. c.company.full_name) r contacts)
        (search (λ (l : Lead). l.person) (λ l. l.company_name) r leads)

-- `clean`: it raises no ValidationError.
unfoldable pub matches : Option Contact → Option Company → Bool
matches (some c) (some k) = c.company.id == k.id
matches _ _ = true

unfoldable pub clean : Request → Bool
unfolding matches
clean r = matches r.contact r.company && not (is_some r.contact && is_some r.lead)

unfoldable pub update_from : Request → Option Contact → Option Lead → Request
update_from r (some c) l = record r {
  phone = c.person.phone;
  company_name = c.company.full_name;
  company = some c.company;
  country = c.company.country;
  city = c.company.city;
  website = c.company.website;
  owner = c.owner;
}
update_from r none (some l) = record r {
  owner = l.owner;
  phone = if not (filled r.phone) && filled l.person.phone then l.person.phone else r.phone;
}
update_from r none none = r

unfoldable pub update_request_data : Request → Request
unfolding update_from
update_request_data r = update_from r r.contact r.lead
