-- ===== src/Crm/Saving/Valid.antt =====
-- The links of a request that is saved (crm/models/request.py, crm/site/requestadmin.py).
use optima_management.Base.{ℕ, ◌≡◌, Bool, true, false, ◌||◌, Option, none, some, List, is_some, ◌⊎◌}
use optima_management.Crm.Types.{Text, Company, Contact, Lead, Request}
use optima_management.Crm.Matching.{or_else, find_contact_or_lead, clean}
use optima_management.Crm.Companies.{find_company}
use optima_management.Crm.Saving.{
  fits_lead, Linked, create_unless, get_or_create_contact_or_lead, link_settled, search_company,
  save_links,
}

-- A request whose links are valid.
record IsLinked (r : Request) : Type 0 where
  valid : clean r ≡ true
  linked : (is_some r.contact || is_some r.lead) ≡ true
  verified : r.verification_required ≡ true

-- Nothing can be created for the request: a text is too long, or its company has no owner.
abbrev pub Failed : Request → Type 0
Failed r = (fits_lead r ≡ false) ⊎ ((k : Company) × (r.company ≡ some k) × (k.owner ≡ none))

abbrev Created : Request → Option Linked → Type 0
Created r none = Failed r
Created r (some l) = IsLinked l.request

module _ (iexact icontains iregex : Text → Text → Bool) (parseaddr lower : Text → Text)
    (isalpha isspace : ℕ → Bool) (public : List Text) (contacts : List Contact) (leads : List Lead)
    (companies : List Company) where
  abbrev find : Request → Request
  find = find_company icontains iregex parseaddr lower isalpha isspace public contacts companies

  abbrev create : Bool → Request → Option Linked
  create =
      create_unless iexact icontains iregex parseaddr lower isalpha isspace public contacts leads
        companies

  -- An exception comes only where nobody was found.
  abbrev Ended : Bool → Request → Option Linked → Type 0
  Ended found r none = (found ≡ false) × Failed (find r)
  Ended found r (some l) = IsLinked l.request

  abbrev look_up : Request → Bool × Request
  look_up r = find_contact_or_lead iexact icontains parseaddr r contacts leads

  abbrev get_or_create : Request → Option Linked
  get_or_create =
      get_or_create_contact_or_lead iexact icontains iregex parseaddr lower isalpha isspace public
        contacts leads companies

  abbrev save : Bool → ℕ → Request → Option Linked
  save =
      save_links iexact icontains iregex parseaddr lower isalpha isspace public contacts leads
        companies

  abbrev search_for : Request → Request
  search_for =
      search_company iexact icontains iregex parseaddr lower isalpha isspace public contacts leads
        companies

  abbrev settled : Request → Option Linked
  settled =
      link_settled iexact icontains iregex parseaddr lower isalpha isspace public contacts leads
        companies

  abbrev owned : ℕ → Request → Request
  owned user r = record r { owner = or_else r.owner (some user) }

  -- How a save ends: with an exception, or with the links of the request.
  abbrev pub Saved : Bool → ℕ → Request → Option Linked → Type 0
  Saved pending user r none =
      (pending ≡ false) × ((look_up (owned user r)).0 ≡ false) × Failed (find (owned user r))
  Saved pending user r (some l) =
      (clean l.request ≡ true)
      × ((pending ≡ true)
          ⊎ (((is_some l.request.contact || is_some l.request.lead) ≡ true)
              × (l.request.verification_required ≡ true)))
