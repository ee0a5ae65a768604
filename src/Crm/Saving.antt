-- ===== src/Crm/Saving.antt =====
-- `get_or_create_contact_or_lead` of a request (crm/models/request.py), and how the admin links a
-- request that it saves (crm/site/requestadmin.py). `none` is an exception, behind which the
-- transaction of the admin leaves nothing.
pub mod Valid
use optima_management.Base.{
  ℕ, Bool, true, false, not, ◌&&◌, ◌||◌, Option, none, some, List, [], ◌∷◌, is_some, if◌then◌else◌,
  leb, map,
}
use optima_management.Base.Lists.{length}
use optima_management.Crm.Types.{Text, Company, BaseContact, Contact, Lead, Request}
use optima_management.Crm.Matching.{filled, or_else, find_contact_or_lead}
use optima_management.Crm.Companies.{find_company}

-- The request and the rows that are created for it.
pub record Linked : Type 0 where
  pub request : Request
  pub new_contact : Option Contact
  pub new_lead : Option Lead

abbrev pub as_it_is : Request → Linked
as_it_is r = record { request = r; new_contact = none; new_lead = none }

-- The personal data that a new row takes from the request.
abbrev pub person_of : Request → Text → BaseContact
person_of r phone = record {
  first_name = r.first_name;
  last_name = r.last_name;
  email = r.email;
  secondary_email = [];
  phone = phone;
  other_phone = [];
  mobile = [];
}

-- The columns of a contact and a lead are shorter than those of a request (crm/models/base_contact.py):
-- PostgreSQL refuses a text that is too long.
abbrev pub fits_contact : Request → Bool
fits_contact r = leb (length r.email) 200

abbrev pub fits_lead : Request → Bool
fits_lead r = fits_contact r && (leb (length r.phone) 100 && leb (length r.city_name) 50)

-- `get_department_id` of an owner who is not there raises as well.
unfoldable pub create_contact : Request → Company → Option Linked
create_contact r k =
    let c : Contact = record { person = person_of r []; company = k; owner = k.owner } in
    if is_some k.owner && fits_contact r
    then some (record {
      request = record r { contact = some c; verification_required = true };
      new_contact = some c;
      new_lead = none;
    })
    else none

-- A lead takes the name of a company that is known, and the request gives the company up.
unfoldable pub create_lead : Request → Option Linked
create_lead r =
    let l : Lead = record {
      person = person_of r r.phone;
      company_name = elim r.company [ none ↦ r.company_name | some k ↦ k.full_name ];
      owner = r.owner;
    } in
    if is_some r.owner && fits_lead r
    then some (record {
      request = record r { lead = some l; company = none; verification_required = true };
      new_contact = none;
      new_lead = some l;
    })
    else none

-- `any((obj.contact, obj.lead))`
abbrev pub has_link : Request → Bool
has_link r = is_some r.contact || is_some r.lead

-- The rows that are created behind the search for a company.
unfoldable pub create_for : Request → Option Company → Option Linked
unfolding create_contact create_lead
create_for r none = create_lead r
create_for r (some k) =
    if filled r.first_name && filled r.email then create_contact r k else create_lead r

-- What a saved request takes from its company where it lacks it.
unfoldable pub fill_from : Request → Option Company → Request
fill_from r none = r
fill_from r (some k) = record r {
  company_name = if filled r.company_name then r.company_name else k.full_name;
  country = or_else r.country k.country;
  city = or_else r.city k.city;
}

-- `obj.company = obj.contact.company` where there is no company.
unfoldable pub company_from_contact : Request → Option Company → Option Contact → Request
company_from_contact r none (some c) = record r { company = some c.company }
company_from_contact r _ _ = r

unfoldable pub company_of_contact : Request → Option Contact → Request
company_of_contact r none = r
company_of_contact r (some c) = record r { company = some c.company }

-- What a saved request that is not pending takes over behind its links.
unfoldable pub complete : Linked → Linked
unfolding company_from_contact fill_from
complete l =
    let r = company_from_contact l.request l.request.company l.request.contact in
    record l { request = fill_from r r.company }

unfoldable pub completed : Option Linked → Option Linked
unfolding complete
completed none = none
completed (some l) = some (complete l)

module _ (iexact icontains iregex : Text → Text → Bool) (parseaddr lower : Text → Text)
    (isalpha isspace : ℕ → Bool) (public : List Text) (contacts : List Contact) (leads : List Lead)
    (companies : List Company) where
  unfoldable pub create_unless : Bool → Request → Option Linked
  unfolding find_company create_for
  create_unless true r = some (as_it_is (record r { verification_required = true }))
  create_unless false r =
      let r' =
        find_company icontains iregex parseaddr lower isalpha isspace public contacts companies r in
      create_for r' r'.company

  unfoldable pub get_or_create_contact_or_lead : Request → Option Linked
  unfolding find_contact_or_lead create_unless
  get_or_create_contact_or_lead r =
      let (found, r') = find_contact_or_lead iexact icontains parseaddr r contacts leads in
      create_unless found r'

  -- `save_model` for a request that is not pending.
  unfoldable pub link_settled : Request → Option Linked
  unfolding get_or_create_contact_or_lead
  link_settled r = if has_link r then some (as_it_is r) else get_or_create_contact_or_lead r

  unfoldable pub save_settled : ℕ → Request → Option Linked
  unfolding link_settled completed
  save_settled user r = completed (link_settled (record r { owner = or_else r.owner (some user) }))

  -- `save_model` for a pending request.
  unfoldable pub search_company : Request → Request
  unfolding find_company
  search_company r =
      if is_some r.company
      then r
      else find_company icontains iregex parseaddr lower isalpha isspace public contacts companies r

  unfoldable pub link_pending : Request → Request
  unfolding find_contact_or_lead
  link_pending r =
      if has_link r then r else (find_contact_or_lead iexact icontains parseaddr r contacts leads).1

  unfoldable pub save_pending : Request → Linked
  unfolding link_pending company_of_contact search_company
  save_pending r =
      let r' = link_pending r in as_it_is (search_company (company_of_contact r' r'.contact))

  -- The links that `save_model` writes.
  unfoldable pub save_links : Bool → ℕ → Request → Option Linked
  unfolding save_settled save_pending
  save_links pending user r = if pending then some (save_pending r) else save_settled user r
