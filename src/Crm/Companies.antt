-- ===== src/Crm/Companies.antt =====
-- `find_company`, `parseweb` and `_get_company_name_q_param` of a request (crm/models/request.py), with
-- `get_email_domain` (crm/utils/helpers.py). The comparisons of the database, Python's tests of
-- letters and blanks and its `lower` are parameters.
pub mod Frame
use optima_management.Base.{
  ℕ, Bool, true, false, not, ◌&&◌, ◌||◌, Option, none, some, List, [], ◌∷◌, ◌++◌, map, ◌==◌, ltb,
  ◌-◌, zero, suc, is_some, if◌then◌else◌,
}
use optima_management.Base.Lists.{length, filter, any, head?, same_text}
use optima_management.Crm.Types.{Text, Company, BaseContact, Contact, Request}
use optima_management.Crm.Matching.{filled, single, starts_with, has_phone, phone_q, or_else}

-- `text.split(sep)`: `k` letters of a separator are still to be skipped, `cur` is the piece so far.
unfoldable pub split_from : Text → ℕ → Text → Text → List Text
unfolding starts_with
split_from sep k cur [] = cur ∷ []
split_from sep (suc k) cur (c ∷ cs) = split_from sep k cur cs
split_from sep zero cur (c ∷ cs) =
    let cut = split_from sep (length sep - 1) [] cs in
    let rest = split_from sep zero (cur ++ c ∷ []) cs in
    if starts_with sep (c ∷ cs) then cur ∷ cut else rest

unfoldable pub split : Text → Text → List Text
unfolding split_from
split sep = split_from sep 0 []

-- `pieces[1]`; `none` is the IndexError.
abbrev pub second : List Text → Option Text
second (a ∷ b ∷ r) = some b
second _ = none

abbrev pub first_piece : List Text → Text
first_piece [] = []
first_piece (a ∷ r) = a

abbrev pub or_text : Option Text → Text → Text
or_text (some t) s = t
or_text none s = s

-- `parseweb`
unfoldable pub parseweb : Text → Text
unfolding split
parseweb website =
    let no_scheme = or_text (second (split (b'/' ∷ b'/' ∷ []) website)) website in
    first_piece (
      split (b'/' ∷ [])
        (or_text (second (split (b'w' ∷ b'w' ∷ b'w' ∷ b'.' ∷ []) website)) no_scheme))

unfoldable pub concat : List Text → Text
concat [] = []
concat (t ∷ ts) = t ++ concat ts

-- `[^a-zA-z]*`
abbrev pub gap : Text
gap = b'[' ∷ b'^' ∷ b'a' ∷ b'-' ∷ b'z' ∷ b'A' ∷ b'-' ∷ b'z' ∷ b']' ∷ b'*' ∷ []

-- `[letter]{1}`
abbrev pub one : ℕ → Text
one c = b'[' ∷ c ∷ b']' ∷ b'{' ∷ b'1' ∷ b'}' ∷ []

-- A company by its key, in a list of companies.
unfoldable pub is_in : Company → List Company → Bool
is_in c cs = any (λ d. c.id == d.id) cs

abbrev pub company_of : Contact → Company
company_of c = c.company

-- `self.company = ...` and the flag, where a company is found.
unfoldable pub set_company : Request → Option Company → Request
set_company r none = record r { company = none }
set_company r (some c) = record r { company = some c; verification_required = true }

-- The loop over the lists that are left takes the last one that has a row.
unfoldable pub take_last : Request → List (Option Company) → Request
unfolding set_company
take_last r [] = r
take_last r (none ∷ cs) = take_last r cs
take_last r (some c ∷ cs) = take_last (set_company r (some c)) cs

module _ (icontains iregex : Text → Text → Bool) (parseaddr lower : Text → Text)
    (isalpha isspace : ℕ → Bool) where
  -- `_get_company_name_q_param`
  unfoldable pub name_regex : Text → Text
  unfolding split concat
  name_regex name =
      let words = split (b' ' ∷ []) (filter (λ c. isalpha c || isspace c) name) in
      b'^' ∷ concat (map (λ word. gap ++ concat (map one word)) words) ++ gap ++ b'$' ∷ []

  unfoldable pub name_q : Request → Company → Bool
  unfolding name_regex
  name_q r c = iregex c.full_name (name_regex r.company_name)

  -- `get_email_domain`; an empty text is a public domain or none.
  unfoldable pub get_email_domain : List Text → Text → Text
  unfolding split
  get_email_domain public email = elim (second (split (b'@' ∷ []) (parseaddr email))) [
    | none ↦ []
    | some domain ↦ if any (same_text (lower domain)) public then [] else lower domain
  ]

  module _ (public : List Text) (contacts : List Contact) (companies : List Company)
      (r : Request) where
    abbrev pub by_address : Contact → Bool
    by_address c =
        icontains c.person.email (parseaddr r.email)
        || icontains c.person.secondary_email (parseaddr r.email)

    -- The query for a telephone number is empty for fewer than five digits: every row passes.
    unfoldable pub by_number : Contact → Bool
    unfolding phone_q
    by_number c = if has_phone r then phone_q r.phone c.person else true

    unfoldable pub companies1 : List Company
    companies1 = if filled r.email then map company_of (filter by_address contacts) else []

    unfoldable pub companies2 : List Company
    unfolding companies1 by_number is_in
    companies2 =
        if filled r.phone
        then (if ltb 1 (length companies1)
            then map company_of (filter (λ c. by_number c && is_in c.company companies1) contacts)
            else map company_of (filter by_number contacts))
        else []

    unfoldable pub companies3 : List Company
    unfolding companies1 companies2 name_q is_in
    companies3 =
        if ltb 1 (length companies1)
        then filter (λ c. name_q r c && is_in c companies1) companies
        else if ltb 1 (length companies2)
        then filter (λ c. name_q r c && is_in c companies2) companies
        else filter (name_q r) companies

    -- `country=self.country`, where the request has one.
    unfoldable pub in_country : Company → Bool
    in_country c = elim r.country [
      | none ↦ false
      | some k ↦ elim c.country [ none ↦ false | some j ↦ j == k ]
    ]

    unfoldable pub companies4 : List Company
    unfolding companies1 companies2 companies3 in_country is_in
    companies4 =
        if ltb 1 (length companies3)
        then filter in_country companies3
        else if ltb 1 (length companies1)
        then filter (λ c. in_country c && is_in c companies1) companies
        else if ltb 1 (length companies2)
        then filter (λ c. in_country c && is_in c companies2) companies
        else []

    unfoldable pub companies5 : List Company
    unfolding companies4 parseweb
    companies5 =
        if filled r.website && ltb 1 (length companies4)
        then filter (λ c. icontains c.website (parseweb r.website)) companies4
        else []

    -- The lists of the part that needs a name, and of the part that needs a country as well.
    unfoldable pub named : List Company
    unfolding companies3
    named = if filled r.company_name then companies3 else []

    unfoldable pub placed : List Company
    unfolding companies4
    placed = if filled r.company_name && is_some r.country then companies4 else []

    unfoldable pub sited : List Company
    unfolding companies5
    sited = if filled r.company_name && is_some r.country then companies5 else []

    -- A list of one row ends the search, and so does any company with the website.
    unfoldable pub decided : Option Company
    unfolding companies1 companies2 named placed sited
    decided = or_else (single companies1) (
        or_else (single companies2)
          (or_else (single named) (or_else (single placed) (head? sited))))

    -- The first company with an address in the domain.
    unfoldable pub by_domain : Request
    unfolding get_email_domain set_company
    by_domain =
        if filled r.email && filled (get_email_domain public r.email)
        then set_company r (
            head?
              (filter (λ c. icontains c.email (b'@' ∷ get_email_domain public r.email)) companies))
        else r

    -- `any(...)` over the numbers of rows.
    unfoldable pub any_left : Bool
    unfolding companies1 companies2 named placed
    any_left = filled placed || (filled named || (filled companies2 || filled companies1))

    unfoldable pub undecided : Request
    unfolding by_domain take_last any_left companies2 named placed
    undecided =
        if any_left
        then take_last r (head? placed ∷ head? named ∷ head? companies2 ∷ [])
        else by_domain

    unfoldable pub decide : Option Company → Request
    unfolding set_company undecided
    decide none = undecided
    decide (some c) = set_company r (some c)

    unfoldable pub find_company : Request
    unfolding decide decided
    find_company =
        if is_some r.company && (is_some r.contact && is_some r.lead) then r else decide decided
