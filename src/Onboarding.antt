-- ===== src/Onboarding.antt =====
-- The employees of onboarding (onboarding/models.py) and the receivers of their `post_save` signal
-- (onboarding/signals.py). Files and texts are compared only with the empty text; the address
-- fields, the phone number and the texts of the mails are left out.
pub mod Validation
pub mod Offboard
pub mod Notify
pub mod Life
use optima_management.Base.{
  ℕ, String, Bool, true, false, not, ◌&&◌, ◌||◌, Option, none, some, List, [], ◌∷◌, ◌++◌, ◌==◌,
  str_eq, truthy, is_some, get_or, if◌then◌else◌, opt_eq,
}
use optima_management.Base.Lists.{filter, all}
use optima_management.Base.Table.{Table, get, put, find, exists}

-- A document: whether it was collected, and its file, empty if none was uploaded.
pub record Document : Type 0 where
  pub collected : Bool
  pub file : String

pub record Employee : Type 0 where
  pub first_name : String
  pub last_name : String
  pub email : String
  pub company_email : Option String
  pub employee_type : Option String
  pub department : Option String
  pub employee_id : Option String
  pub position : Option String
  pub is_deleted : Bool
  pub deleted_at : Option ℕ
  pub is_self_submitted : Bool
  pub it_notification_sent : Bool
  pub aadhar_pan : Document
  pub educational_certificates : Document
  pub bank_statements : Document
  pub previous_offer_letter : Document
  pub payslips : Document
  pub relieving_experience_letters : Document
  pub appraisal_hike_letters : Document

-- The account of `django.contrib.auth`, as far as the code here reads or writes it.
pub record User : Type 0 where
  pub username : String
  pub email : String
  pub first_name : String
  pub last_name : String
  pub is_active : Bool

pub record Supporter : Type 0 where
  pub email : String
  pub is_active : Bool

pub record Staff : Type 0 where
  pub employees : Table Employee
  pub users : Table User
  pub supporters : List Supporter
  -- The recipients of each mail that was sent, the last one first.
  pub outbox : List (List String)

-- A nullable text in a Python condition.
abbrev pub given : Option String → Bool
given none = false
given (some s) = truthy s

abbrev pub mandatory : Employee → List Document
mandatory e =
    e.aadhar_pan ∷ e.educational_certificates ∷ e.bank_statements ∷ e.previous_offer_letter ∷ []

abbrev pub documents : Employee → List Document
documents e =
    e.aadhar_pan ∷ e.payslips ∷ e.educational_certificates ∷ e.previous_offer_letter
    ∷ e.relieving_experience_letters ∷ e.appraisal_hike_letters ∷ e.bank_statements ∷ []

unfoldable pub mandatory_documents_collected : Employee → Bool
mandatory_documents_collected e = all (λ d. d.collected) (mandatory e)

unfoldable pub mandatory_documents_uploaded : Employee → Bool
mandatory_documents_uploaded e = all (λ d. truthy d.file) (mandatory e)

unfoldable pub all_documents_collected : Employee → Bool
all_documents_collected e = all (λ d. d.collected) (documents e)

unfoldable pub all_documents_uploaded : Employee → Bool
all_documents_uploaded e = all (λ d. truthy d.file) (documents e)

unfoldable pub onboarding_complete : Employee → Bool
unfolding mandatory_documents_collected mandatory_documents_uploaded
onboarding_complete e = mandatory_documents_collected e && mandatory_documents_uploaded e

-- `all([instance.department, instance.position, instance.employee_type])`
abbrev pub has_details : Employee → Bool
has_details e = given e.department && given e.position && given e.employee_type

abbrev pub active_emails : List Supporter → List String
active_emails [] = []
active_emails (x ∷ xs) = if x.is_active then x.email ∷ active_emails xs else active_emails xs

abbrev pub is_nil : List String → Bool
is_nil [] = true
is_nil (x ∷ xs) = false

-- `Employee.objects.filter(pk=...).update(it_notification_sent=True)`: the row, not the instance;
-- the manager leaves out deleted employees.
unfoldable pub set_notified : ℕ → Option Employee → Table Employee → Table Employee
set_notified id none t = t
set_notified id (some e) t =
    if e.is_deleted then t else put id (record e { it_notification_sent = true }) t

-- `send_it_asset_assignment_email`; `delivered` says that `email.send()` does not raise.
unfoldable pub send_it_asset_assignment_email : Bool → ℕ → Employee → Staff → Staff
unfolding set_notified
send_it_asset_assignment_email delivered id e s =
    if e.it_notification_sent
    then s
    else if e.is_self_submitted && not (has_details e)
    then s
    else if not (has_details e)
    then s
    else if is_nil (active_emails s.supporters)
    then s
    else if delivered
    then record s {
      employees = set_notified id (get id s.employees) s.employees;
      outbox = active_emails s.supporters ∷ s.outbox;
    }
    else s

-- Another row has the username, which the database refuses.
unfoldable pub username_taken : ℕ → String → Table User → Bool
username_taken id name [] = false
username_taken id name ((j, u) ∷ t) =
    (not (j == id) && str_eq u.username name) || username_taken id name t

-- `sync_user_account`; `none` is the database's refusal of the username, `new_id` the key of a new
-- account, and `strip` Python's.
module _ (strip : String → String) where
  unfoldable pub write_account :
      ℕ → Employee → String → String → Table User → Option (ℕ × User) → Option (Table User)
  unfolding username_taken
  write_account new_id e name email t (some (k, u)) =
      if username_taken k name t
      then none
      else some (
          put k (record u { username = name; first_name = e.first_name; last_name = e.last_name })
            t)
  write_account new_id e name email t none =
      if exists (λ u. str_eq u.username name) t
      then some t
      else some (
          put new_id
            (record {
              username = name;
              email = email;
              first_name = e.first_name;
              last_name = e.last_name;
              is_active = true;
            })
            t)

  unfoldable pub sync_given :
      ℕ → Employee → Option String → Option String → Table User → Option (Table User)
  unfolding write_account
  sync_given new_id e (some name) (some email) t =
      if truthy name && truthy email
      then write_account new_id e (strip name) email t (find (λ u. str_eq u.email email) t)
      else some t
  sync_given new_id e _ _ t = some t

  unfoldable pub sync_user_account : ℕ → Employee → Table User → Option (Table User)
  unfolding sync_given
  sync_user_account new_id e t = sync_given new_id e e.employee_id e.company_email t

  -- The receivers run in the order of the file; an exception of the first one stops the second,
  -- and the row of the employee is written already. The Boolean says that nothing was raised.
  unfoldable pub receivers : Bool → ℕ → Employee → Staff → Option (Table User) → Bool × Staff
  unfolding send_it_asset_assignment_email
  receivers delivered id e s none = (false, s)
  receivers delivered id e s (some users) =
      (true, send_it_asset_assignment_email delivered id e (record s { users = users }))

  -- `Employee.save()`
  unfoldable pub save_employee : ℕ → Bool → ℕ → Employee → Staff → Bool × Staff
  unfolding receivers sync_user_account
  save_employee new_id delivered id e s =
      let s' = record s { employees = put id e s.employees } in
      receivers delivered id e s' (sync_user_account new_id e s'.users)

  unfoldable pub soft_delete : ℕ → ℕ → Bool → ℕ → Employee → Staff → Bool × Staff
  unfolding save_employee
  soft_delete now new_id delivered id e s =
      save_employee new_id delivered id (record e { is_deleted = true; deleted_at = some now }) s

  unfoldable pub restore : ℕ → Bool → ℕ → Employee → Staff → Bool × Staff
  unfolding save_employee
  restore new_id delivered id e s =
      save_employee new_id delivered id (record e { is_deleted = false; deleted_at = none }) s
