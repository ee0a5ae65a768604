-- ===== src/Onboarding/Validation.antt =====
-- `Employee.clean` (onboarding/models.py), the validation before an employee is saved, and its
-- relation to `sync_user_account` (onboarding/signals.py).
use optima_management.Base.{
  ℕ, ◌≡◌, ◌≢◌, refl, sym, ap, ◌∙◌, String, Bool, true, false, not, ◌&&◌, Option, none, some, [],
  ◌∷◌, ◌==◌, str_eq, arith, if◌then◌else◌, truthy,
}
use mathlib.Core.Path.{subst}
use optima_management.Base.Table.{Table, find}
use optima_management.Onboarding.{
  Employee, User, Staff, username_taken, write_account, sync_given, sync_user_account,
}

-- The errors name what is shown: the identifier, and the account that has it.
pub data Cleaned : Type 0 where
  valid : Employee → Cleaned
  id_in_use : String → Cleaned
  username_in_use : String → String → Cleaned

-- `exclude(pk=...)`, which with `None` leaves nothing out.
abbrev pub differs : Option ℕ → ℕ → Bool
differs none k = true
differs (some j) k = not (k == j)

abbrev pub find_row {ℓ} : {A : Type ℓ} → (ℕ → A → Bool) → Table A → Option (ℕ × A)
find_row p [] = none
find_row p ((j, a) ∷ t) = if p j a then some (j, a) else find_row p t

unfoldable pub by_email : Option String → Table User → Option ℕ
by_email none t = none
by_email (some email) t =
    if truthy email
    then elim (find (λ u. str_eq u.email email) t) [ some (k, u) ↦ some k | none ↦ none ]
    else none

-- The account of an employee that has a row: by the company address, else by the private one.
unfoldable pub current_user : Option ℕ → Employee → Table User → Option ℕ
unfolding by_email
current_user none e t = none
current_user (some id) e t = elim (by_email e.company_email t) [
  | some k ↦ some k
  | none ↦ by_email (some e.email) t
]

-- `iexact` is the database's comparison without case, `strip` is Python's.
module _ (strip : String → String) (iexact : String → String → Bool) where
  -- Another active employee has the identifier.
  unfoldable pub employee_id_taken : Option ℕ → String → Table Employee → Option (ℕ × Employee)
  employee_id_taken pk name t =
      find_row (λ k e. differs pk k && not e.is_deleted && same_id e.employee_id) t
    where
      same_id : Option String → Bool
      same_id none = false
      same_id (some s) = iexact s name

  unfoldable pub other_account : Option ℕ → String → Table User → Option (ℕ × User)
  other_account pk name t = find_row (λ k u. differs pk k && iexact u.username name) t

  unfoldable pub cleaned : Employee → String → Option (ℕ × Employee) → Option (ℕ × User) → Cleaned
  cleaned e name (some r) _ = id_in_use name
  cleaned e name none (some (k, u)) =
      username_in_use name (if truthy u.email then u.email else u.username)
  cleaned e name none none = valid (record e { employee_id = some name })

  unfoldable pub clean_given : Option ℕ → Employee → Option String → Staff → Cleaned
  unfolding cleaned employee_id_taken other_account current_user
  clean_given pk e none s = valid e
  clean_given pk e (some name) s =
      if truthy name
      then cleaned e (strip name) (employee_id_taken pk (strip name) s.employees)
          (other_account (current_user pk e s.users) (strip name) s.users)
      else valid e

  -- `pk` is `none` for an employee that has no row yet.
  unfoldable pub clean : Option ℕ → Employee → Staff → Cleaned
  unfolding clean_given
  clean pk e s = clean_given pk e e.employee_id s

  module _ (iexact_same : (a b : String) → str_eq a b ≡ true → iexact a b ≡ true)
      (strip-strip : (s : String) → strip (strip s) ≡ strip s) where
    other_account-username_taken :
        (k : ℕ) (name : String) (t : Table User)
        → other_account (some k) name t ≡ none
        → username_taken k name t ≡ false
    unfolding other_account username_taken
    other_account-username_taken k name [] h = refl
    other_account-username_taken k name ((j, u) ∷ t) h =
        ground (arith, iexact_same u.username name, other_account-username_taken k name t)

    no_account-username_taken :
        (k : ℕ) (name : String) (t : Table User)
        → other_account none name t ≡ none
        → username_taken k name t ≡ false
    unfolding other_account username_taken
    no_account-username_taken k name [] h = refl
    no_account-username_taken k name ((j, u) ∷ t) h =
        ground (arith, iexact_same u.username name, no_account-username_taken k name t)

    write_account_accepted :
        (new_id : ℕ) (e : Employee) (name email : String) (t : Table User) (o : Option (ℕ × User))
        → ((k : ℕ) (u : User) → o ≡ some (k, u) → username_taken k name t ≡ false)
        → write_account strip new_id e name email t o ≢ none
    unfolding write_account
    write_account_accepted new_id e name email t (some (k, u)) h =
        let free = h k u refl in ground (arith, free)
    write_account_accepted new_id e name email t none h = ground arith

    -- What validation promises: no other account has the name, or the one that has it is the
    -- account with the employee's company address.
    Free : Option ℕ → Employee → String → Table User → Type 0
    Free pk e name t = other_account (current_user pk e t) name t ≡ none

    by_email_found :
        (email : String) (t : Table User) (k : ℕ) (u : User)
        → truthy email ≡ true
        → find (λ v. str_eq v.email email) t ≡ some (k, u)
        → by_email (some email) t ≡ some k
    unfolding by_email
    by_email_found email t k u g f = ground (arith, f, g)

    Free-username_taken :
        (pk : Option ℕ) (e : Employee) (name email : String) (t : Table User) (k : ℕ) (u : User)
        → e.company_email ≡ some email
        → truthy email ≡ true
        → find (λ v. str_eq v.email email) t ≡ some (k, u)
        → Free pk e name t
        → username_taken k name t ≡ false
    unfolding Free current_user
    Free-username_taken none e name email t k u c g f h = no_account-username_taken k name t h
    Free-username_taken (some id) e name email t k u c g f h =
        other_account-username_taken k name t (subst (λ o. other_account o name t ≡ none) current h)
      where
        current : current_user (some id) e t ≡ some k
        current =
            ap (λ o. elim (by_email o t) [ some j ↦ some j | none ↦ by_email (some e.email) t ]) c
            ∙ ap (λ o. elim o [ some j ↦ some j | none ↦ by_email (some e.email) t ])
                (by_email_found email t k u g f)

    cleaned_valid :
        (e e' : Employee) (name : String) (o : Option (ℕ × Employee)) (a : Option (ℕ × User))
        → cleaned e name o a ≡ valid e'
        → (o ≡ none) × (a ≡ none) × (e' ≡ record e { employee_id = some name })
    unfolding cleaned
    cleaned_valid e e' name (some r) a h = cc
    cleaned_valid e e' name none (some (k, u)) h = cc
    cleaned_valid e e' name none none h = (refl, refl, cc)

    sync_given_accepted :
        (new_id : ℕ) (pk : Option ℕ) (e e' : Employee) (name : String) (t : Table User)
        (o : Option String)
        → e.company_email ≡ o
        → strip name ≡ name
        → Free pk e name t
        → sync_given strip new_id e' (some name) o t ≢ none
    unfolding sync_given
    sync_given_accepted new_id pk e e' name t none c i h = cc
    sync_given_accepted new_id pk e e' name t (some email) c i h =
        go (truthy name) (truthy email) refl
      where
        writes :
            truthy email ≡ true
            → write_account strip new_id e' name email t (find (λ u. str_eq u.email email) t) ≢ none
        writes g =
            write_account_accepted new_id e' name email t _
              (λ k u f. Free-username_taken pk e name email t k u c g f h)

        go :
            (a b : Bool)
            → b ≡ truthy email
            → (if a && b
                then write_account strip new_id e'
                    (strip name)
                    email
                    t
                    (find (λ u. str_eq u.email email) t)
                else some t)
              ≢ none
        go true true q =
            subst
              (λ n.
                write_account strip new_id e' n email t (find (λ u. str_eq u.email email) t) ≢ none)
              (sym i) (writes (sym q))
        go true false q = cc
        go false true q = cc
        go false false q = cc

    valid-injective : (a b : Employee) → valid a ≡ valid b → a ≡ b
    valid-injective a b h = cc

    blank_name :
        (new_id : ℕ) (e : Employee) (name : String) (o : Option String) (t : Table User)
        → truthy name ≡ false
        → sync_given strip new_id e (some name) o t ≢ none
    unfolding sync_given
    blank_name new_id e name none t b = λ q. cc
    blank_name new_id e name (some email) t b = ground (arith, b)

    clean_given-sync :
        (new_id : ℕ) (pk : Option ℕ) (e e' : Employee) (o : Option String) (s : Staff)
        → e.employee_id ≡ o
        → clean_given pk e o s ≡ valid e'
        → sync_user_account strip new_id e' s.users ≢ none
    unfolding clean_given sync_user_account sync_given Free
    clean_given-sync new_id pk e e' none s i h =
        subst (λ x. sync_user_account strip new_id x s.users ≢ none) (valid-injective e e' h)
          (subst (λ o. sync_given strip new_id e o e.company_email s.users ≢ none) (sym i)
            (λ q. cc))
    clean_given-sync new_id pk e e' (some name) s i h = go (truthy name) refl h
      where
        go :
            (b : Bool)
            → truthy name ≡ b
            → (if b
                then cleaned e
                    (strip name)
                    (employee_id_taken pk (strip name) s.employees)
                    (other_account (current_user pk e s.users) (strip name) s.users)
                else valid e)
              ≡ valid e'
            → sync_user_account strip new_id e' s.users ≢ none
        go true b q =
            let (_, free, same) = cleaned_valid e e' (strip name) _ _ q in
            subst (λ x. sync_user_account strip new_id x s.users ≢ none) (sym same)
              (sync_given_accepted new_id pk e (record e { employee_id = some (strip name) })
                (strip name) s.users e.company_email refl (strip-strip name) free)
        go false b q =
            subst (λ x. sync_user_account strip new_id x s.users ≢ none) (valid-injective e e' q)
              (subst (λ o. sync_given strip new_id e o e.company_email s.users ≢ none) (sym i)
                (blank_name new_id e name e.company_email s.users b))

    -- What `clean` accepts, its account can be written: the receiver that runs when the employee is
    -- saved does not meet a username that another account has, if comparison without case holds of
    -- equal texts and stripping twice is stripping once.
    pub clean-sync_user_account :
        (new_id : ℕ) (pk : Option ℕ) (e e' : Employee) (s : Staff)
        → clean pk e s ≡ valid e'
        → sync_user_account strip new_id e' s.users ≢ none
    unfolding clean
    clean-sync_user_account new_id pk e e' s h =
        clean_given-sync new_id pk e e' e.employee_id s refl h
