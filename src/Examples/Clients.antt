-- ===== src/Examples/Clients.antt =====
-- Examples for the requests of clients (crm).
use optima_management.Base.{◌≡◌, refl, Bool, true, false, ◌||◌, none, some, [], ◌∷◌}
use optima_management.Base.Lists.{same_text, any}
use optima_management.Crm.Types.{Text, Company, Contact, Lead, Request}
use optima_management.Crm.Matching.{
  occurs_in, email_q, first_q, find_contact_or_lead, update_request_data, search,
}
use optima_management.Crm.Matching.Linked.{IsLinked, find_contact_or_lead-IsLinked}
use optima_management.Crm.Matching.Complete.{is_sender, IsLinkedTo, find_contact_or_lead_found}

abbrev ann : Text
ann = b'A' ∷ b'n' ∷ b'n' ∷ []

abbrev address : Text
address = b'a' ∷ b'@' ∷ b'x' ∷ []

abbrev company : Company
company = record {
  id = 4;
  full_name = b'X' ∷ [];
  country = some 1;
  city = none;
  website = [];
  email = [];
  owner = some 6;
}

abbrev contact : Contact
contact = record {
  person = record {
    first_name = ann;
    last_name = [];
    email = address;
    secondary_email = [];
    phone = b'1' ∷ b'2' ∷ [];
    other_phone = [];
    mobile = [];
  };
  company = company;
  owner = some 8;
}

abbrev request : Request
request = record {
  first_name = ann;
  last_name = [];
  email = address;
  phone = [];
  company_name = [];
  website = [];
  country = none;
  city = none;
  city_name = [];
  owner = none;
  contact = none;
  lead = none;
  company = none;
  verification_required = false;
}

-- Texts are compared as they are, and an address is bare.
abbrev icontains : Text → Text → Bool
icontains s t = occurs_in t s

abbrev bare : Text → Text
bare s = s

sender_example : IsLinked same_text icontains bare request (
    update_request_data (find_contact_or_lead same_text icontains bare request (contact ∷ []) []).1)
sender_example =
    find_contact_or_lead-IsLinked same_text icontains bare request (contact ∷ []) [] refl refl

sends :
    (any (is_sender same_text icontains bare (λ (c : Contact). c.person) request) (contact ∷ [])
      || any (is_sender same_text icontains bare (λ (l : Lead). l.person) request) [])
    ≡ true
unfolding email_q first_q occurs_in
sends = refl

found_example :
    let x = find_contact_or_lead same_text icontains bare request (contact ∷ []) [] in
    (x.0 ≡ true)
    × (x.1.verification_required ≡ true)
    × IsLinkedTo request
        (search same_text icontains bare
          (λ (c : Contact). c.person)
          (λ c. c.company.full_name)
          request
          (contact ∷ []))
        (search same_text icontains bare (λ (l : Lead). l.person) (λ l. l.company_name) request [])
        x.1
found_example =
    find_contact_or_lead_found same_text icontains bare request (contact ∷ []) [] refl sends

-- Every letter is a letter, and no pattern matches.
abbrev no_match : Text → Text → Bool
no_match s t = false
