-- ===== src/Crm/Duplicates/Types.antt =====
-- What the view that deletes a duplicate reads and writes (crm/views/delete_duplicate_object.py):
-- the tables with the rows that may name a company, a contact, a lead or a city, the mailings, the
-- files and the addresses of mailings. A row is its attributes by name, as `getattr` reads them.
use optima_management.Base.{
  ℕ, String, Bool, true, false, List, [], ◌∷◌, ◌==◌, str_eq, if◌then◌else◌,
}

-- A value of a field: nothing, the key of another row, or a text.
pub data Value : Type 0 where
  no_value : Value
  key : ℕ → Value
  text : List ℕ → Value

-- A value is true in a Python condition.
abbrev pub filled_in : Value → Bool
filled_in no_value = false
filled_in (key k) = true
filled_in (text []) = false
filled_in (text (c ∷ cs)) = true

abbrev pub names : ℕ → Value → Bool
names k (key j) = j == k
names k _ = false

pub record Row : Type 0 where
  pub id : ℕ
  pub attrs : String → Value
  pub m2m : String → List ℕ

-- `setattr(row, f, v)`
unfoldable pub setattr : String → Value → Row → Row
setattr f v r = record r { attrs = λ g. if str_eq g f then v else r.attrs g }

pub data Model : Type 0 where
  company : Model
  contact : Model
  lead : Model
  city : Model
  deal : Model
  request : Model
  crm_email : Model

abbrev pub same_model : Model → Model → Bool
same_model company company = true
same_model contact contact = true
same_model lead lead = true
same_model city city = true
same_model deal deal = true
same_model request request = true
same_model crm_email crm_email = true
same_model _ _ = false

-- `content_type` and `object_id` of a file or of an address.
pub record Generic : Type 0 where
  pub content_type : Model
  pub object_id : ℕ

pub record MailingOut : Type 0 where
  pub content_type : Model
  pub recipient_ids : List ℕ

pub record Store : Type 0 where
  pub companies : List Row
  pub contacts : List Row
  pub leads : List Row
  pub cities : List Row
  pub deals : List Row
  pub requests : List Row
  pub emails : List Row
  pub mailing_outs : List MailingOut
  pub files : List Generic
  pub mass_contacts : List Generic

-- `model.objects`
unfoldable pub rows : Model → Store → List Row
rows company s = s.companies
rows contact s = s.contacts
rows lead s = s.leads
rows city s = s.cities
rows deal s = s.deals
rows request s = s.requests
rows crm_email s = s.emails

unfoldable pub set_rows : Model → List Row → Store → Store
set_rows company t s = record s { companies = t }
set_rows contact t s = record s { contacts = t }
set_rows lead t s = record s { leads = t }
set_rows city t s = record s { cities = t }
set_rows deal t s = record s { deals = t }
set_rows request t s = record s { requests = t }
set_rows crm_email t s = record s { emails = t }
