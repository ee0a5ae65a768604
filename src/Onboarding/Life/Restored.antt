-- ===== src/Onboarding/Life/Restored.antt =====
-- An employee who is restored (onboarding/admin.py).
use optima_management.Base.{
  ℕ, ◌≡◌, refl, sym, ap, ◌∙◌, String, Bool, true, false, Option, none, some, [], ◌∷◌, str_eq, arith,
  ◌⊎◌, inl, inr, Option-cases, some-eq, if-both,
}
use mathlib.Core.Path.{subst}
use optima_management.Base.Table.{Table, get, put, find, get-put_self}
use optima_management.Onboarding.{
  Employee, User, Staff, set_notified, send_it_asset_assignment_email, receivers, save_employee,
}
use optima_management.Onboarding.Offboard.{employees_after_mail}
use optima_management.Onboarding.Life.{
  by_email, first_of, account_of, activate, Answer, done, activate_saved, save_restored, restored,
  restore_found, restore_employee,
}

-- The row is there and is not deleted.
pub record IsActive (k : ℕ) (t : Table Employee) : Type 0 where
  pub row : Employee
  pub stored : get k t ≡ some row
  pub kept : row.is_deleted ≡ false
  pub undated : row.deleted_at ≡ none

same_row : (x y : Employee) → some x ≡ some y → x ≡ y
same_row x y h = some-eq h

abbrev kept_text : String → String
kept_text s = s

set_notified-IsActive :
    (k : ℕ) (t : Table Employee) (o : Option Employee)
    → get k t ≡ o
    → IsActive k t
    → IsActive k (set_notified k o t)
unfolding set_notified
set_notified-IsActive k t none q h = h
set_notified-IsActive k t (some x) q h =
    if-both (IsActive k) x.is_deleted t (put k (record x { it_notification_sent = true }) t) h
      (record {
        row = record x { it_notification_sent = true };
        stored = get-put_self k _ t;
        kept = ap (λ (y : Employee). y.is_deleted) (same_row x h.row (sym q ∙ h.stored)) ∙ h.kept;
        undated =
            ap (λ (y : Employee). y.deleted_at) (same_row x h.row (sym q ∙ h.stored)) ∙ h.undated;
      })

send-IsActive :
    (delivered : Bool) (k : ℕ) (x : Employee) (s : Staff)
    → IsActive k s.employees
    → IsActive k (send_it_asset_assignment_email delivered k x s).employees
send-IsActive delivered k x s h = elim (employees_after_mail kept_text delivered k x s) [
  | inl q ↦ subst (IsActive k) (sym q) h
  | inr q ↦ subst (IsActive k) (sym q) (set_notified-IsActive k s.employees _ refl h)
]

-- An account that is written under its key is found in its place.
find-put :
    (p : User → Bool) (k : ℕ) (u a : User) (t : Table User)
    → find p t ≡ some (k, u)
    → p a ≡ true
    → find p (put k a t) ≡ some (k, a)
find-put p k u a [] e h = cc
find-put p k u a ((j, b) ∷ t) e h = ground (arith, find-put p k u a t)

find_passes :
    (p : User → Bool) (k : ℕ) (u : User) (t : Table User) → find p t ≡ some (k, u) → p u ≡ true
find_passes p k u [] e = cc
find_passes p k u ((j, b) ∷ t) e = ground (arith, find_passes p k u t)

find_absent :
    (p q : User → Bool) (k : ℕ) (u : User) (t : Table User)
    → find p t ≡ none
    → find q t ≡ some (k, u)
    → p u ≡ false
find_absent p q k u [] e f = cc
find_absent p q k u ((j, b) ∷ t) e f = ground (arith, find_absent p q k u t)

find-put_absent :
    (p : User → Bool) (k : ℕ) (a : User) (t : Table User)
    → find p t ≡ none
    → p a ≡ false
    → find p (put k a t) ≡ none
find-put_absent p k a [] e h = ground arith
find-put_absent p k a ((j, b) ∷ t) e h = ground (arith, find-put_absent p k a t)

abbrev switched_on : User → User
switched_on u = record u { is_active = true }

-- The account of an employee, if there is one, is switched on.
abbrev pub HasAccess : Employee → Table User → Type 0
HasAccess e t =
    (account_of e t ≡ none)
    ⊎ ((uid : ℕ) × (u : User) × (account_of e t ≡ some (uid, u)) × (u.is_active ≡ true))

-- The search by a company address and by a private one, over any table.
lookup : Option String → String → Table User → Option (ℕ × User)
lookup c m t = first_of (by_email c t) (by_email (some m) t)

lookup-put :
    (c : Option String) (m : String) (t : Table User) (uid : ℕ) (u : User)
    → lookup c m t ≡ some (uid, u)
    → lookup c m (put uid (switched_on u) t) ≡ some (uid, switched_on u)
unfolding lookup by_email
lookup-put none m t uid u h = find-put _ uid u (switched_on u) t h (find_passes _ uid u t h)
lookup-put (some c) m t uid u h = elim (Option-cases (find (λ v. str_eq v.email c) t)) [
  | inl e ↦
      let private = sym (ap (λ o. first_of o (find (λ v. str_eq v.email m) t)) e) ∙ h in
      let other = find_absent (λ v. str_eq v.email c) (λ v. str_eq v.email m) uid u t e private in
      ap (λ o. first_of o (find (λ v. str_eq v.email m) (put uid (switched_on u) t)))
        (find-put_absent (λ v. str_eq v.email c) uid (switched_on u) t e other)
      ∙ find-put (λ v. str_eq v.email m) uid u (switched_on u) t private
          (find_passes (λ v. str_eq v.email m) uid u t private)
  | inr (r, e) ↦
      let company = e ∙ sym (ap (λ o. first_of o (find (λ v. str_eq v.email m) t)) e) ∙ h in
      ap (λ o. first_of o (find (λ v. str_eq v.email m) (put uid (switched_on u) t)))
        (find-put (λ v. str_eq v.email c) uid u (switched_on u) t company
          (find_passes (λ v. str_eq v.email c) uid u t company))
]

receivers-IsActive :
    (strip : String → String) (delivered : Bool) (k : ℕ) (e : Employee) (s : Staff)
    (o : Option (Table User))
    → IsActive k s.employees
    → IsActive k (receivers strip delivered k e s o).1.employees
unfolding receivers
receivers-IsActive strip delivered k e s none h = h
receivers-IsActive strip delivered k e s (some us) h = send-IsActive delivered k e _ h

saved-IsActive :
    (strip : String → String) (new_id : ℕ) (delivered : Bool) (k : ℕ) (e : Employee) (s : Staff)
    → e.is_deleted ≡ false
    → e.deleted_at ≡ none
    → IsActive k (save_employee strip new_id delivered k e s).1.employees
unfolding save_employee
saved-IsActive strip new_id delivered k e s d a =
    receivers-IsActive strip delivered k e _ _
      (record { row = e; stored = get-put_self k e s.employees; kept = d; undated = a })

activate-HasAccess :
    (e : Employee) (s : Staff) (o : Option (ℕ × User))
    → account_of e s.users ≡ o
    → HasAccess e (activate o s).users
unfolding activate account_of lookup
activate-HasAccess e s none q = inl q
activate-HasAccess e s (some (uid, u)) q =
    inr (uid, switched_on u, lookup-put e.company_email e.email s.users uid u q, refl)

activate-employees : (o : Option (ℕ × User)) (s : Staff) → (activate o s).employees ≡ s.employees
unfolding activate
activate-employees none s = refl
activate-employees (some (uid, u)) s = refl

-- An answer that the restoration is done comes with the row and the account.
abbrev WhenDone : ℕ → Employee → Answer × Staff → Type 0
WhenDone k e r = r.0 ≡ done → IsActive k r.1.employees × HasAccess e r.1.users

activate_saved-WhenDone :
    (strip : String → String) (k : ℕ) (e : Employee) (p : Bool × Staff)
    → IsActive k p.1.employees
    → WhenDone k e (activate_saved strip e p)
unfolding activate_saved
activate_saved-WhenDone strip k e (false, s) a = λ h. cc
activate_saved-WhenDone strip k e (true, s) a = λ h. (
  subst (IsActive k) (sym (activate-employees (account_of e s.users) s)) a,
  activate-HasAccess e s (account_of e s.users) refl,
)

save_restored-WhenDone :
    (strip : String → String) (new_id : ℕ) (delivered : Bool) (k : ℕ) (e : Employee)
    (p : Bool × Staff)
    → e.is_deleted ≡ false
    → e.deleted_at ≡ none
    → WhenDone k e (save_restored strip new_id delivered k e p)
unfolding save_restored
save_restored-WhenDone strip new_id delivered k e (false, s) d a = λ h. cc
save_restored-WhenDone strip new_id delivered k e (true, s) d a =
    activate_saved-WhenDone strip k e _ (saved-IsActive strip new_id delivered k e s d a)

restore_found-WhenDone :
    (strip : String → String) (id1 id2 : ℕ) (delivered : Bool) (k : ℕ) (e : Employee) (s : Staff)
    → WhenDone k (restored e) (restore_found strip id1 id2 delivered k (some e) s)
unfolding restore_found
restore_found-WhenDone strip id1 id2 delivered k e s =
    if-both (WhenDone k (restored e)) e.is_deleted _ _
      (save_restored-WhenDone strip id2 delivered k (restored e) _ refl refl) (λ h. cc)

-- A restoration that is done leaves the row undeleted, and switches the account of the employee on
-- where there is one.
pub restore_employee-IsActive :
    (strip : String → String) (id1 id2 : ℕ) (delivered : Bool) (k : ℕ) (e : Employee) (s : Staff)
    → get k s.employees ≡ some e
    → (restore_employee strip id1 id2 delivered k s).0 ≡ done
    → let s' = (restore_employee strip id1 id2 delivered k s).1 in
      IsActive k s'.employees × HasAccess e s'.users
unfolding restore_employee account_of
restore_employee-IsActive strip id1 id2 delivered k e s found =
    subst (λ o. WhenDone k e (restore_found strip id1 id2 delivered k o s)) (sym found)
      (restore_found-WhenDone strip id1 id2 delivered k e s)
