-- ===== src/Onboarding/Offboard.antt =====
-- `notify_it_team_for_asset_collection` (onboarding/signals.py), the receiver that ends an
-- employment: the employee is deleted softly, the account is switched off, the IT team gets a mail.
-- The records are created in the admin, in a transaction of its request.
use optima_management.Base.{
  ℕ, ◌≡◌, refl, sym, ap, ◌∙◌, String, Bool, true, false, not, ◌&&◌, Option, none, some, [], ◌∷◌,
  str_eq, arith, ◌⊎◌, if◌then◌else◌, if_false, inl, inr,
}
use mathlib.Core.Path.{subst}
use optima_management.Base.Table.{Table, get, put, find, get-put_self}
use optima_management.Onboarding.{
  Employee, User, Staff, active_emails, is_nil, set_notified, send_it_asset_assignment_email,
  receivers, save_employee, soft_delete, sync_user_account,
}

abbrev same_email : String → Option String → Bool
same_email email none = false
same_email email (some s) = str_eq s email

-- The employee with the company address of the account, else the one with its private address;
-- the manager leaves out deleted employees.
unfoldable pub find_employee : String → Table Employee → Option (ℕ × Employee)
find_employee email t = elim (find (λ e. not e.is_deleted && same_email email e.company_email) t) [
  | some r ↦ some r
  | none ↦ find (λ e. not e.is_deleted && str_eq e.email email) t
]

unfoldable pub deactivate : ℕ → User → Staff → Staff
deactivate uid u s = record s { users = put uid (record u { is_active = false }) s.users }

unfoldable pub mail_it_team : Bool → Staff → Staff
mail_it_team delivered s =
    if is_nil (active_emails s.supporters)
    then s
    else if delivered
    then record s { outbox = active_emails s.supporters ∷ s.outbox }
    else s

module _ (strip : String → String) where
  -- The Boolean says that the database has refused nothing.
  unfoldable pub delete_found : ℕ → ℕ → Bool → Staff → Option (ℕ × Employee) → Bool × Staff
  unfolding soft_delete
  delete_found now new_id delivered s none = (true, s)
  delete_found now new_id delivered s (some (k, e)) =
      if e.is_deleted then (true, s) else soft_delete strip now new_id delivered k e s

  -- What the database refuses is caught, but it marks the transaction, so that the next query outside
  -- a `try`, that of the IT team, raises: nothing is written.
  unfoldable pub end_account : Bool → ℕ → User → Staff → Bool × Staff → Bool × Staff
  unfolding deactivate mail_it_team
  end_account delivered uid u s (true, s') = (true, mail_it_team delivered (deactivate uid u s'))
  end_account delivered uid u s (false, s') = (false, s)

  -- `u` is the account as the new offboarding record holds it; it is written back whole. The Boolean
  -- says that nothing was raised.
  unfoldable pub offboard : ℕ → ℕ → Bool → Bool → ℕ → User → Staff → Bool × Staff
  unfolding delete_found end_account find_employee
  offboard now new_id delivered created uid u s =
      if created
      then end_account delivered uid u s
          (delete_found now new_id delivered s (find_employee u.email s.employees))
      else (true, s)

  unfoldable pub DeletedIn : ℕ → ℕ → Table Employee → Type 0
  DeletedIn k now t =
      (e : Employee) × (get k t ≡ some e) × (e.is_deleted ≡ true) × (e.deleted_at ≡ some now)

  deleted_row : (x e : Employee) → some x ≡ some e → e.is_deleted ≡ true → x.is_deleted ≡ true
  deleted_row x e h d = ground arith

  set_notified-DeletedIn :
      (k now : ℕ) (t : Table Employee) (o : Option Employee)
      → o ≡ get k t
      → DeletedIn k now t
      → DeletedIn k now (set_notified k o t)
  unfolding set_notified DeletedIn
  set_notified-DeletedIn k now t none q h = h
  set_notified-DeletedIn k now t (some x) q (e, g, d, a) =
      subst
        (λ b. DeletedIn k now (if b then t else put k (record x { it_notification_sent = true }) t))
        (sym (deleted_row x e (q ∙ g) d)) (e, g, d, a)

  pub employees_after_mail :
      (delivered : Bool) (k : ℕ) (e : Employee) (s : Staff)
      → (send_it_asset_assignment_email delivered k e s).employees ≡ s.employees
        ⊎ (send_it_asset_assignment_email delivered k e s).employees
          ≡ set_notified k (get k s.employees) s.employees
  unfolding send_it_asset_assignment_email
  employees_after_mail delivered k e s = ground arith

  send-DeletedIn :
      (delivered : Bool) (k now : ℕ) (e : Employee) (s : Staff)
      → DeletedIn k now s.employees
      → DeletedIn k now (send_it_asset_assignment_email delivered k e s).employees
  send-DeletedIn delivered k now e s h = elim (employees_after_mail delivered k e s) [
    | inl q ↦ subst (DeletedIn k now) (sym q) h
    | inr q ↦ subst (DeletedIn k now) (sym q) (set_notified-DeletedIn k now s.employees _ refl h)
  ]

  mail_keeps_employees : (d : Bool) (s : Staff) → (mail_it_team d s).employees ≡ s.employees
  unfolding mail_it_team
  mail_keeps_employees d s = ground arith

  mail_keeps_users : (d : Bool) (s : Staff) → (mail_it_team d s).users ≡ s.users
  unfolding mail_it_team
  mail_keeps_users d s = ground arith

  -- What `find_employee` finds is not deleted: the manager's filter makes the code's branch for an
  -- employee that was deleted before unreachable.
  first_not_deleted :
      (p : Employee → Bool) (t : Table Employee) (k : ℕ) (e : Employee)
      → find (λ x. not x.is_deleted && p x) t ≡ some (k, e)
      → e.is_deleted ≡ false
  first_not_deleted p [] k e h = ground arith
  first_not_deleted p ((j, x) ∷ t) k e h = ground (arith, first_not_deleted p t k e)

  find_employee_not_deleted :
      (email : String) (t : Table Employee) (k : ℕ) (e : Employee)
      → find_employee email t ≡ some (k, e)
      → e.is_deleted ≡ false
  unfolding find_employee
  find_employee_not_deleted email t k e h = go _ refl h
    where
      go :
          (o : Option (ℕ × Employee))
          → find (λ x. not x.is_deleted && same_email email x.company_email) t ≡ o
          → (elim o [
            | some r ↦ some r
            | none ↦ find (λ x. not x.is_deleted && str_eq x.email email) t
          ])
            ≡ some (k, e)
          → e.is_deleted ≡ false
      go (some r) q g = first_not_deleted _ t k e (q ∙ g)
      go none q g = first_not_deleted _ t k e g

  -- The row as `soft_delete` writes it.
  abbrev deleted : ℕ → Employee → Employee
  deleted now e = record e { is_deleted = true; deleted_at = some now }

  end_account-DeletedIn :
      (now : ℕ) (delivered : Bool) (uid : ℕ) (u : User) (s s' : Staff) (k : ℕ)
      → DeletedIn k now s'.employees
      → let x = end_account delivered uid u s (true, s') in
        (x.0 ≡ true)
        × DeletedIn k now x.1.employees
        × (get uid x.1.users ≡ some (record u { is_active = false }))
  unfolding end_account deactivate
  end_account-DeletedIn now delivered uid u s s' k h =
      let s'' = deactivate uid u s' in
      (
        refl,
        subst (DeletedIn k now) (sym (mail_keeps_employees delivered s'')) h,
        ap (get uid) (mail_keeps_users delivered s'')
            ∙ get-put_self uid (record u { is_active = false }) s'.users,
      )

  -- A new offboarding record whose user has an employee record. Where the synchronisation of the
  -- account is refused, the creation raises and nothing is changed. Else the employee is deleted, with
  -- the time of the deletion, and the account is switched off and otherwise as it was, whatever the
  -- mails do.
  pub offboard-Ended :
      (now new_id : ℕ) (delivered : Bool) (uid : ℕ) (u : User) (s : Staff) (k : ℕ) (e : Employee)
      → find_employee u.email s.employees ≡ some (k, e)
      → let x = offboard now new_id delivered true uid u s in
        let e' = record e { is_deleted = true; deleted_at = some now } in
        ((sync_user_account strip new_id e' s.users ≡ none) × (x ≡ (false, s)))
        ⊎ ((us : Table User) × (sync_user_account strip new_id e' s.users ≡ some us)
            × (x.0 ≡ true)
            × DeletedIn k now x.1.employees
            × (get uid x.1.users ≡ some (record u { is_active = false })))
  unfolding offboard
  offboard-Ended now new_id delivered uid u s k e h =
      subst Ended (sym opened) (go (sync_user_account strip new_id (deleted now e) s.users) refl)
    where
      Ended : Bool × Staff → Type 0
      Ended x =
          ((sync_user_account strip new_id (deleted now e) s.users ≡ none) × (x ≡ (false, s)))
          ⊎ ((us : Table User) × (sync_user_account strip new_id (deleted now e) s.users ≡ some us)
              × (x.0 ≡ true)
              × DeletedIn k now x.1.employees
              × (get uid x.1.users ≡ some (record u { is_active = false })))

      stored : Staff
      stored = record s { employees = put k (deleted now e) s.employees }

      received : Option (Table User) → Bool × Staff
      received o = receivers strip delivered k (deleted now e) stored o

      opened :
          end_account delivered uid u s
            (delete_found now new_id delivered s (find_employee u.email s.employees))
          ≡ end_account delivered uid u s
              (received (sync_user_account strip new_id (deleted now e) s.users))
      opened =
          ap (λ o. end_account delivered uid u s (delete_found now new_id delivered s o)) h
          ∙ (unfold delete_found soft_delete save_employee in
              if_false
                (λ (y : Bool × Staff).
                  end_account delivered uid u s y
                  ≡ end_account delivered uid u s
                      (received (sync_user_account strip new_id (deleted now e) s.users)))
                e.is_deleted (true, s) _ (find_employee_not_deleted u.email s.employees k e h) refl)

      go :
          (o : Option (Table User))
          → sync_user_account strip new_id (deleted now e) s.users ≡ o
          → Ended (end_account delivered uid u s (received o))
      go none q = inl (q, unfold receivers end_account in refl)
      go (some us) q =
          let (fine, gone, off) =
            end_account-DeletedIn now delivered uid u s
              (send_it_asset_assignment_email delivered k (deleted now e)
                (record stored { users = us }))
              k
              (send-DeletedIn delivered k now (deleted now e) (record stored { users = us })
                (unfold DeletedIn in
                  (deleted now e, get-put_self k (deleted now e) s.employees, refl, refl))) in
          unfold receivers in inr (us, q, fine, gone, off)
