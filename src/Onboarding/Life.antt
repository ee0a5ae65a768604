-- ===== src/Onboarding/Life.antt =====
-- The end and the return of an employment in `EmployeeAdmin` (onboarding/admin.py): soft deletions, the
-- restoration and the permanent deletion. What hangs on a deleted account is left out.
pub mod Restored
use optima_management.Base.{
  ℕ, String, Bool, true, false, not, Option, none, some, List, [], ◌∷◌, ◌==◌, str_eq, truthy,
  if◌then◌else◌,
}
use optima_management.Base.Lists.{filter}
use optima_management.Base.Table.{Table, get, put, find}
use optima_management.Onboarding.{Employee, User, Staff, save_employee, soft_delete, restore}

-- `User.objects.filter(email=...).first()`; no account has a null address.
unfoldable pub by_email : Option String → Table User → Option (ℕ × User)
by_email none t = none
by_email (some email) t = find (λ u. str_eq u.email email) t

abbrev pub first_of : Option (ℕ × User) → Option (ℕ × User) → Option (ℕ × User)
first_of (some r) o = some r
first_of none o = o

-- The account of an employee: by the company address, else by the private one.
unfoldable pub account_of : Employee → Table User → Option (ℕ × User)
unfolding by_email
account_of e t = first_of (by_email e.company_email t) (by_email (some e.email) t)

unfoldable pub activate : Option (ℕ × User) → Staff → Staff
activate none s = s
activate (some (uid, u)) s = record s { users = put uid (record u { is_active = true }) s.users }

-- What the view answers; an exception of a receiver is not caught.
pub data Answer : Type 0 where
  done not_deleted missing server_error : Answer

abbrev pub restored : Employee → Employee
restored e = record e { is_deleted = false; deleted_at = none }

abbrev without : {A : Type 0} → ℕ → Table A → Table A
without k = filter (λ r. not (r.0 == k))

unfoldable pub delete_user : Option (ℕ × User) → Staff → Staff
delete_user none s = s
delete_user (some (uid, u)) s = record s { users = without uid s.users }

-- The private address is looked at where it is not empty.
unfoldable pub account_to_delete : Employee → Table User → Option (ℕ × User)
unfolding by_email
account_to_delete e t =
    first_of (by_email e.company_email t)
      (if truthy e.email then by_email (some e.email) t else none)

-- `permanent_delete_employee`
unfoldable pub permanent_delete : ℕ → Option Employee → Staff → Staff
unfolding delete_user account_to_delete
permanent_delete k none s = s
permanent_delete k (some e) s =
    let s = delete_user (account_to_delete e s.users) s in
    record s { employees = without k s.employees }

unfoldable pub permanent_delete_employee : ℕ → Staff → Staff
unfolding permanent_delete
permanent_delete_employee k s = permanent_delete k (get k s.employees) s

module _ (strip : String → String) where
  unfoldable pub activate_saved : Employee → Bool × Staff → Answer × Staff
  unfolding account_of activate
  activate_saved e (false, s) = (server_error, s)
  activate_saved e (true, s) = (done, activate (account_of e s.users) s)

  -- `employee.save()` behind `employee.restore()`.
  unfoldable pub save_restored : ℕ → Bool → ℕ → Employee → Bool × Staff → Answer × Staff
  unfolding activate_saved save_employee
  save_restored new_id delivered k e (false, s) = (server_error, s)
  save_restored new_id delivered k e (true, s) =
      activate_saved e (save_employee strip new_id delivered k e s)

  unfoldable pub restore_found : ℕ → ℕ → Bool → ℕ → Option Employee → Staff → Answer × Staff
  unfolding save_restored restore
  restore_found id1 id2 delivered k none s = (missing, s)
  restore_found id1 id2 delivered k (some e) s =
      if e.is_deleted
      then save_restored id2 delivered k (restored e) (restore strip id1 delivered k e s)
      else (not_deleted, s)

  -- `restore_employee`; `id1` and `id2` are the keys of new accounts in the two saves.
  unfoldable pub restore_employee : ℕ → ℕ → Bool → ℕ → Staff → Answer × Staff
  unfolding restore_found
  restore_employee id1 id2 delivered k s = restore_found id1 id2 delivered k (get k s.employees) s

  -- `delete_model`, and one round of `delete_queryset`.
  unfoldable pub delete_model : ℕ → ℕ → Bool → ℕ → Employee → Staff → Bool × Staff
  unfolding soft_delete
  delete_model now new_id delivered k e s =
      if e.is_deleted then (true, s) else soft_delete strip now new_id delivered k e s
