-- ===== src/Lockout/Login/Runs.antt =====
-- Sequences of requests to `LoginLockoutMiddleware` (common/middleware.py), against the ideal lock of
-- one user.
use optima_management.Base.{
  ℕ, ◌≤◌, ◌≡◌, sym, String, Bool, true, false, not, ◌&&◌, List, [], ◌∷◌, str_eq, truthy, eq_iff,
  if◌then◌else◌, Bool-cases, inl, inr,
}
use mathlib.Core.Path.{subst}
use optima_management.Lockout.Store.{login, Cache, CacheLaws}
use optima_management.Lockout.{Notice, silent, handle_failure, clear, before}
use optima_management.Lockout.Login.{
  LoginRequest, Reply, after_login, login_call, handle_user_failed_login,
}
use optima_management.Lockout.Status.{
  Status, Tracks, failed, cleared, Tracks-later, handle_failure-Tracks, clear-Tracks,
}
use optima_management.Lockout.Checks.{before-own, before-other}
use optima_management.Lockout.Frame.{Same-clear, Same-handle_failure, Same-Tracks}

-- A request, with the times before and behind the view.
pub record Call : Type 0 where
  pub start : ℕ
  pub end : ℕ
  pub request : LoginRequest
  pub reply : Reply

-- The calls come one after the other, the first one not before `now`.
abbrev pub InOrder : ℕ → List Call → Type 0
InOrder now [] = Unit
InOrder now (x ∷ xs) = (now ≤ x.start) × (x.start ≤ x.end) × InOrder x.end xs

abbrev pub last_time : ℕ → List Call → ℕ
last_time now [] = now
last_time now (x ∷ xs) = last_time x.end xs

module _ (strip : String → String) (known : String → Bool) where
  -- What a call means for the lock of a user.
  abbrev pub replied : Bool → ℕ → Reply → Status → Status
  replied exists now reply s =
      if reply.status_200 && not reply.authenticated
      then (if exists then failed now s else s)
      else if reply.authenticated
      then cleared
      else s

  abbrev pub note : String → Call → Status → Status
  note user x s =
      if (x.request.is_login_attempt && truthy (strip x.request.username))
        && str_eq user (strip x.request.username)
      then replied (known user) x.end x.reply s
      else s

  abbrev pub note_all : String → List Call → Status → Status
  note_all user [] s = s
  note_all user (x ∷ xs) s = note_all user xs (note user x s)

  module _ {C : Type 0} {cache : Cache C} (laws : CacheLaws C cache) where
    abbrev pub call_all : List Call → C → C
    call_all [] c = c
    call_all (x ∷ xs) c =
        call_all xs (login_call strip C cache known x.start x.end x.request x.reply c).1.1

    after_login-own :
        (now : ℕ) (user : String) (r : Reply) (c : C) (s : Status)
        → Tracks laws login user now c s
        → Tracks laws login user now
            (after_login strip C cache known now user r c).1
            (replied (known user) now r s)
    unfolding after_login handle_user_failed_login
    after_login-own now user r c s h =
        go (r.status_200 && not r.authenticated) r.authenticated (known user)
      where
        go :
            (a b k : Bool)
            → Tracks laws login user now
                (if a
                  then (if k
                      then handle_failure C cache login now user c
                      else (Notice.not_onboarded, c))
                  else if b
                  then (silent, clear C cache login user c)
                  else (silent, c)).1
                (if a then (if k then failed now s else s) else if b then cleared else s)
        go true b true = handle_failure-Tracks laws login user now c s h
        go true b false = h
        go false true k = clear-Tracks laws login user now c
        go false false k = h

    after_login-other :
        (now : ℕ) (user other : String) (apart : str_eq user other ≡ false) (r : Reply) (c : C)
        (s : Status)
        → Tracks laws login user now c s
        → Tracks laws login user now (after_login strip C cache known now other r c).1 s
    unfolding after_login handle_user_failed_login
    after_login-other now user other apart r c s h =
        go (r.status_200 && not r.authenticated) r.authenticated (known other)
      where
        go :
            (a b k : Bool)
            → Tracks laws login user now
                (if a
                  then (if k
                      then handle_failure C cache login now other c
                      else (Notice.not_onboarded, c))
                  else if b
                  then (silent, clear C cache login other c)
                  else (silent, c)).1
                s
        go true b true =
            Same-Tracks laws login user other apart now c _ s
              (Same-handle_failure laws login user other apart now c) h
        go true b false = h
        go false true k =
            Same-Tracks laws login user other apart now c _ s
              (Same-clear laws login user other apart c) h
        go false false k = h

    attempt-Tracks :
        (user other : String) (x : Call) (c : C) (s : Status)
        → x.start ≤ x.end
        → Tracks laws login user x.start c s
        → Tracks laws login user x.end
            (after_login strip C cache known x.end other x.reply
              (before C cache login x.start other c).1).1
            (if str_eq user other then replied (known user) x.end x.reply s else s)
    attempt-Tracks user other x c s le h = elim (Bool-cases (str_eq user other)) [
      | inl same ↦ rw same (
          subst
            (λ v.
              Tracks laws login user x.end
                (after_login strip C cache known x.end v x.reply
                  (before C cache login x.start v c).1).1
                (replied (known user) x.end x.reply s))
            ((eq_iff user other).0 same)
            (subst
              (λ c'.
                Tracks laws login user x.end
                  (after_login strip C cache known x.end user x.reply c').1
                  (replied (known user) x.end x.reply s))
              (sym (before-own laws login x.start user c s h))
              (after_login-own x.end user x.reply c s
                (Tracks-later laws login user x.start x.end c s le h))))
      | inr apart ↦ rw apart (
          after_login-other x.end user other apart x.reply _ s (
            Tracks-later laws login user x.start x.end _ s le
              (before-other laws login x.start user other apart c s h)))
    ]

    call-Tracks :
        (user : String) (x : Call) (c : C) (s : Status)
        → x.start ≤ x.end
        → Tracks laws login user x.start c s
        → Tracks laws login user x.end
            (login_call strip C cache known x.start x.end x.request x.reply c).1.1
            (note user x s)
    unfolding login_call
    call-Tracks user x c s le h =
        go (x.request.is_login_attempt && truthy (strip x.request.username))
      where
        v : String
        v = strip x.request.username

        go :
            (a : Bool)
            → Tracks laws login user x.end
                (if◌then◌else◌ {A = Notice × (Notice × C)} a
                  (
                    (before C cache login x.start v c).0,
                    after_login strip C cache known x.end v x.reply
                        (before C cache login x.start v c).1,
                  )
                  (silent, (silent, c))).1.1
                (if a && str_eq user v then replied (known user) x.end x.reply s else s)
        go true = attempt-Tracks user v x c s le h
        go false = Tracks-later laws login user x.start x.end c s le h

    -- The middleware refines the ideal lock: after any requests of any users, one behind the other,
    -- the cache reads from then on as the status of the user, which only this user's attempts have
    -- changed.
    pub login_call-Tracks :
        (user : String) (xs : List Call) (now : ℕ) (c : C) (s : Status)
        → InOrder now xs
        → Tracks laws login user now c s
        → Tracks laws login user (last_time now xs) (call_all xs c) (note_all user xs s)
    login_call-Tracks user [] now c s o h = h
    login_call-Tracks user (x ∷ xs) now c s (le, le', o) h =
        login_call-Tracks user xs x.end _ (note user x s) o
          (call-Tracks user x c s le' (Tracks-later laws login user now x.start c s le h))
