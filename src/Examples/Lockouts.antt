-- ===== src/Examples/Lockouts.antt =====
-- Examples for the lockouts (common/middleware.py), with a cache that keeps every entry and its end.
use optima_management.Base.{
  ℕ, ◌+◌, ◌≡◌, refl, String, Bool, true, false, not, ◌&&◌, Option, none, some, List, [], ◌∷◌, arith,
  ltb, eq_iff, if◌then◌else◌, Bool-cases, inl, inr,
}
use mathlib.Core.Path.{subst}
use optima_management.Lockout.Store.{
  Kind, login, password, Key, failures, lockout, same_kind, same_key, Cache, CacheLaws,
}
use optima_management.Lockout.Status.{Tracks, cleared}
use optima_management.Lockout.Login.{is_user_locked_out}
use optima_management.Lockout.Login.Attempts.{IsAttempt, IsFailure, three_failures-locked}
use optima_management.Lockout.{half_hour}
use optima_management.Lockout.Login.Runs.{Call, last_time, note_all, call_all, login_call-Tracks}
use optima_management.Lockout.Password.{PasswordReply}
use optima_management.Lockout.Password.Changes as Changes

abbrev Entries : Type 0
Entries = List (Key × ℕ × ℕ)

abbrev read : ℕ → Key → Entries → Option ℕ
read t k [] = none
read t k ((j, v, end) ∷ c) =
    if same_key k j then (if ltb t end then some v else none) else read t k c

abbrev without : Key → Entries → Entries
without k [] = []
without k ((j, v, end) ∷ c) =
    let rest = without k c in if same_key k j then rest else (j, v, end) ∷ rest

abbrev entries : Cache Entries
entries = record {
  get = read;
  set = λ now k v timeout c. (k, v, now + timeout) ∷ c;
  delete = without;
}

same_kind_refl : (a : Kind) → same_kind a a ≡ true
same_kind_refl login = refl
same_kind_refl password = refl

same_kind-eq : (a b : Kind) → same_kind a b ≡ true → a ≡ b
same_kind-eq login login h = refl
same_kind-eq password password h = refl
same_kind-eq login password h = cc
same_kind-eq password login h = cc

same_key_refl : (k : Key) → same_key k k ≡ true
same_key_refl (failures a s) = rw (same_kind_refl a, (eq_iff s s).1 refl) refl
same_key_refl (lockout a s) = rw (same_kind_refl a, (eq_iff s s).1 refl) refl

both_true : (p q : Bool) → (p && q) ≡ true → (p ≡ true) × (q ≡ true)
both_true p q h = ground arith

same_key-eq : (j k : Key) → same_key j k ≡ true → j ≡ k
same_key-eq (failures a s) (failures b t) h =
    let e = both_true _ _ h in λ i. failures (same_kind-eq a b e.0 i) ((eq_iff s t).0 e.1 i)
same_key-eq (lockout a s) (lockout b t) h =
    let e = both_true _ _ h in λ i. lockout (same_kind-eq a b e.0 i) ((eq_iff s t).0 e.1 i)
same_key-eq (failures a s) (lockout b t) h = cc
same_key-eq (lockout a s) (failures b t) h = cc

read-without : (t : ℕ) (k : Key) (c : Entries) → read t k (without k c) ≡ none
read-without t k [] = refl
read-without t k ((j, v, end) ∷ c) = ground (arith, read-without t k c)

read-without_ne :
    (t : ℕ) (j k : Key) (c : Entries) → same_key j k ≡ false → read t j (without k c) ≡ read t j c
read-without_ne t j k [] h = refl
read-without_ne t j k ((i, v, end) ∷ c) h = elim (Bool-cases (same_key k i)) [
  | inl e ↦ rw e (
      let e' : same_key j i ≡ false = subst (λ x. same_key j x ≡ false) (same_key-eq k i e) h in
      rw e' (read-without_ne t j k c h))
  | inr e ↦ rw (e, read-without_ne t j k c h) refl
]

laws : CacheLaws Entries entries
laws = record {
  get-set = λ now t k v timeout c le lt. rw (same_key_refl k) (ground arith);
  get-set_expired = λ now t k v timeout c le. rw (same_key_refl k) (ground arith);
  get-set_ne = λ now t j k v timeout c ne. rw ne refl;
  get-delete = read-without;
  get-delete_ne = read-without_ne;
}

-- The names are sent as they are stored, and everybody exists.
abbrev strip : String → String
strip s = s

abbrev known : String → Bool
known s = true

abbrev attempt : ℕ → Bool → Call
attempt t right = record {
  start = t;
  end = t;
  request = record { is_login_attempt = true; username = "ann" };
  reply = record { status_200 = not right; authenticated = right };
}

abbrev attempts : List Call
attempts = attempt 10 false ∷ attempt 20 false ∷ attempt 30 false ∷ []

empty : (kind : Kind) → Tracks laws kind "ann" 0 [] cleared
empty kind = record { counts = λ t le. refl; locks = λ t le. refl }

login_example :
    Tracks laws login "ann"
      (last_time 0 attempts)
      (call_all strip known laws attempts [])
      (note_all strip known "ann" attempts cleared)
login_example =
    login_call-Tracks strip known laws "ann" attempts 0 [] cleared (omega arith) (empty login)

abbrev changes : List Changes.Change
changes =
    record {
      start = 5;
      end = 6;
      attempt = true;
      username = "ann";
      reply = PasswordReply.error_page;
    }
    ∷ record {
      start = 7;
      end = 8;
      attempt = true;
      username = "bob";
      reply = PasswordReply.redirected;
    }
    ∷ []

password_example :
    Tracks laws password "ann"
      (Changes.last_time 0 changes)
      (Changes.call_all laws changes [])
      (Changes.note_all "ann" changes cleared)
password_example =
    Changes.password_call-Tracks laws "ann" changes 0 [] cleared (omega arith) (empty password)

attempt-IsAttempt : (t : ℕ) (right : Bool) → IsAttempt strip known laws "ann" (attempt t right)
attempt-IsAttempt t right = record { posts = refl; named = refl; by_user = refl }

attempt-IsFailure : (t : ℕ) → IsFailure strip known laws "ann" (attempt t false)
attempt-IsFailure t = record { attempt = attempt-IsAttempt t false; shown = refl; out = refl }

three_example :
    (is_user_locked_out strip Entries entries 100 "ann" (call_all strip known laws attempts [])).0
    ≡ ltb 100 (30 + half_hour)
three_example =
    three_failures-locked strip known laws "ann" (attempt 10 false) (attempt 20 false)
      (attempt 30 false) 0 100 [] refl (omega arith) (attempt-IsFailure 10) (attempt-IsFailure 20)
      (attempt-IsFailure 30) (omega arith) (omega arith) (omega arith) (empty login)

abbrev shut : Entries
shut = call_all strip known laws attempts []
