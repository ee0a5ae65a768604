-- ===== src/Crm/Types.antt =====
-- crm/models: a request and the rows that it may be linked to, with the fields that the search
-- reads and the links write. Texts are lists of code points; the row that a foreign key names stands
-- in its place, and rows are the same where their keys are.
use optima_management.Base.{ℕ, Bool, Option, List}

abbrev pub Text : Type 0
Text = List ℕ

pub record Company : Type 0 where
  pub id : ℕ
  pub full_name : Text
  pub country : Option ℕ
  pub city : Option ℕ
  pub website : Text
  pub email : Text
  pub owner : Option ℕ

-- `BaseContact` and `BaseCounterparty`
pub record BaseContact : Type 0 where
  pub first_name : Text
  pub last_name : Text
  pub email : Text
  pub secondary_email : Text
  pub phone : Text
  pub other_phone : Text
  pub mobile : Text

pub record Contact : Type 0 where
  pub person : BaseContact
  pub company : Company
  pub owner : Option ℕ

pub record Lead : Type 0 where
  pub person : BaseContact
  pub company_name : Text
  pub owner : Option ℕ

pub record Request : Type 0 where
  pub first_name : Text
  pub last_name : Text
  pub email : Text
  pub phone : Text
  pub company_name : Text
  pub website : Text
  pub country : Option ℕ
  pub city : Option ℕ
  pub city_name : Text
  pub owner : Option ℕ
  pub contact : Option Contact
  pub lead : Option Lead
  pub company : Option Company
  pub verification_required : Bool
