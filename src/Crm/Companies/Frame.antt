-- ===== src/Crm/Companies/Frame.antt =====
-- What the search for a company leaves as it is (crm/models/request.py).
use optima_management.Base.{ℕ, ◌≡◌, refl, Bool, Option, none, some, List, [], ◌∷◌, if-both}
use optima_management.Base.Lists.{head?}
use optima_management.Crm.Types.{Text, Company, Contact, Request}
use optima_management.Crm.Companies.{
  set_company, take_last, any_left, companies2, named, placed, by_domain, undecided, decide,
  find_company,
}

-- The search for a company changes neither the contact nor the lead nor the owner.
pub record Keeps (r r' : Request) : Type 0 where
  pub contact : r'.contact ≡ r.contact
  pub lead : r'.lead ≡ r.lead
  pub owner : r'.owner ≡ r.owner

kept : (r : Request) → Keeps r r
kept r = record { contact = refl; lead = refl; owner = refl }

set_company-Keeps : (r : Request) (o : Option Company) → Keeps r (set_company r o)
unfolding set_company
set_company-Keeps r none = record { contact = refl; lead = refl; owner = refl }
set_company-Keeps r (some c) = record { contact = refl; lead = refl; owner = refl }

take_last-Keeps : (r : Request) (cs : List (Option Company)) → Keeps r (take_last r cs)
unfolding take_last set_company
take_last-Keeps r [] = kept r
take_last-Keeps r (none ∷ cs) = take_last-Keeps r cs
take_last-Keeps r (some c ∷ cs) =
    let rest = take_last-Keeps (set_company r (some c)) cs in
    record { contact = rest.contact; lead = rest.lead; owner = rest.owner }

module _ (icontains iregex : Text → Text → Bool) (parseaddr lower : Text → Text)
    (isalpha isspace : ℕ → Bool) (public : List Text) (contacts : List Contact)
    (companies : List Company) where
  by_domain-Keeps :
      (r : Request)
      → Keeps r
          (by_domain icontains iregex parseaddr lower isalpha isspace public contacts companies r)
  unfolding by_domain
  by_domain-Keeps r = if-both (Keeps r) _ _ r (set_company-Keeps r _) (kept r)

  undecided-Keeps :
      (r : Request)
      → Keeps r
          (undecided icontains iregex parseaddr lower isalpha isspace public contacts companies r)
  unfolding undecided
  undecided-Keeps r =
      let rest =
        head? (placed icontains iregex parseaddr lower isalpha isspace public contacts companies r)
        ∷ head? (named icontains iregex parseaddr lower isalpha isspace public contacts companies r)
        ∷ head? (
            companies2 icontains iregex parseaddr lower isalpha isspace public contacts companies r)
        ∷ [] in
      if-both (Keeps r)
        (any_left icontains iregex parseaddr lower isalpha isspace public contacts companies r)
        (take_last r rest)
        (by_domain icontains iregex parseaddr lower isalpha isspace public contacts companies r)
        (take_last-Keeps r rest) (by_domain-Keeps r)

  decide-Keeps :
      (r : Request) (o : Option Company)
      → Keeps r
          (decide icontains iregex parseaddr lower isalpha isspace public contacts companies r o)
  unfolding decide
  decide-Keeps r none = undecided-Keeps r
  decide-Keeps r (some c) = set_company-Keeps r (some c)

  pub find_company-Keeps :
      (r : Request)
      → Keeps r (
          find_company icontains iregex parseaddr lower isalpha isspace public contacts companies r)
  unfolding find_company
  find_company-Keeps r = if-both (Keeps r) _ r _ (kept r) (decide-Keeps r _)
