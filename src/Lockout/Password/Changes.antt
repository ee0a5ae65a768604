-- ===== src/Lockout/Password/Changes.antt =====
-- Sequences of password changes at `PasswordChangeLockoutMiddleware` (common/middleware.py), against
-- the ideal lock of one user.
use optima_management.Base.{
  ℕ, ◌≤◌, ◌≡◌, sym, String, Bool, true, false, List, [], ◌∷◌, str_eq, eq_iff, ◌&&◌, if◌then◌else◌,
  Bool-cases, inl, inr,
}
use mathlib.Core.Path.{subst}
use optima_management.Lockout.Store.{password, Cache, CacheLaws}
use optima_management.Lockout.{Notice, silent, before}
use optima_management.Lockout.Password.{
  PasswordReply, error_page, redirected, other, after_password, password_call,
  handle_user_failed_password_change, clear_user_password_failures,
}
use optima_management.Lockout.Status.{
  Status, Tracks, failed, cleared, Tracks-later, handle_failure-Tracks, clear-Tracks,
}
use optima_management.Lockout.Frame.{Same-clear, Same-handle_failure, Same-Tracks}
use optima_management.Lockout.Checks.{before-own, before-other}

-- A request of a user, with the times before and behind the view.
pub record Change : Type 0 where
  pub start : ℕ
  pub end : ℕ
  pub attempt : Bool
  pub username : String
  pub reply : PasswordReply

abbrev pub InOrder : ℕ → List Change → Type 0
InOrder now [] = Unit
InOrder now (x ∷ xs) = (now ≤ x.start) × (x.start ≤ x.end) × InOrder x.end xs

abbrev pub last_time : ℕ → List Change → ℕ
last_time now [] = now
last_time now (x ∷ xs) = last_time x.end xs

abbrev pub replied : ℕ → PasswordReply → Status → Status
replied now error_page s = failed now s
replied now redirected s = cleared
replied now other s = s

abbrev pub note : String → Change → Status → Status
note user x s = if x.attempt && str_eq user x.username then replied x.end x.reply s else s

abbrev pub note_all : String → List Change → Status → Status
note_all user [] s = s
note_all user (x ∷ xs) s = note_all user xs (note user x s)

module _ {C : Type 0} {cache : Cache C} (laws : CacheLaws C cache) where
  abbrev pub call_all : List Change → C → C
  call_all [] c = c
  call_all (x ∷ xs) c =
      call_all xs (password_call C cache x.attempt x.start x.end x.username x.reply c).1.1

  after_password-own :
      (now : ℕ) (user : String) (r : PasswordReply) (c : C) (s : Status)
      → Tracks laws password user now c s
      → Tracks laws password user now (after_password C cache now user r c).1 (replied now r s)
  unfolding after_password handle_user_failed_password_change clear_user_password_failures
  after_password-own now user error_page c s h = handle_failure-Tracks laws password user now c s h
  after_password-own now user redirected c s h = clear-Tracks laws password user now c
  after_password-own now user other c s h = h

  after_password-other :
      (now : ℕ) (user v : String) (apart : str_eq user v ≡ false) (r : PasswordReply) (c : C)
      (s : Status)
      → Tracks laws password user now c s
      → Tracks laws password user now (after_password C cache now v r c).1 s
  unfolding after_password handle_user_failed_password_change clear_user_password_failures
  after_password-other now user v apart error_page c s h =
      Same-Tracks laws password user v apart now c _ s
        (Same-handle_failure laws password user v apart now c) h
  after_password-other now user v apart redirected c s h =
      Same-Tracks laws password user v apart now c _ s (Same-clear laws password user v apart c) h
  after_password-other now user v apart other c s h = h

  attempt-Tracks :
      (user v : String) (x : Change) (c : C) (s : Status)
      → x.start ≤ x.end
      → Tracks laws password user x.start c s
      → Tracks laws password user x.end
          (after_password C cache x.end v x.reply (before C cache password x.start v c).1).1
          (if str_eq user v then replied x.end x.reply s else s)
  attempt-Tracks user v x c s le h = elim (Bool-cases (str_eq user v)) [
    | inl same ↦ rw same (
        subst
          (λ w.
            Tracks laws password user x.end
              (after_password C cache x.end w x.reply (before C cache password x.start w c).1).1
              (replied x.end x.reply s))
          ((eq_iff user v).0 same)
          (subst
            (λ c'.
              Tracks laws password user x.end (after_password C cache x.end user x.reply c').1
                (replied x.end x.reply s))
            (sym (before-own laws password x.start user c s h))
            (after_password-own x.end user x.reply c s
              (Tracks-later laws password user x.start x.end c s le h))))
    | inr apart ↦ rw apart (
        after_password-other x.end user v apart x.reply _ s (
          Tracks-later laws password user x.start x.end _ s le
            (before-other laws password x.start user v apart c s h)))
  ]

  call-Tracks :
      (user : String) (x : Change) (c : C) (s : Status)
      → x.start ≤ x.end
      → Tracks laws password user x.start c s
      → Tracks laws password user x.end
          (password_call C cache x.attempt x.start x.end x.username x.reply c).1.1
          (note user x s)
  unfolding password_call
  call-Tracks user x c s le h = go x.attempt
    where
      go :
          (a : Bool)
          → Tracks laws password user x.end
              (if◌then◌else◌ {A = Notice × (Notice × C)} a
                (
                  (before C cache password x.start x.username c).0,
                  after_password C cache x.end x.username x.reply
                      (before C cache password x.start x.username c).1,
                )
                (silent, (silent, c))).1.1
              (if a && str_eq user x.username then replied x.end x.reply s else s)
      go true = attempt-Tracks user x.username x c s le h
      go false = Tracks-later laws password user x.start x.end c s le h

  -- The middleware refines the ideal lock: after any requests of any users, one behind the other,
  -- the cache reads from then on as the status of the user, which only this user's attempts have
  -- changed.
  pub password_call-Tracks :
      (user : String) (xs : List Change) (now : ℕ) (c : C) (s : Status)
      → InOrder now xs
      → Tracks laws password user now c s
      → Tracks laws password user (last_time now xs) (call_all xs c) (note_all user xs s)
  password_call-Tracks user [] now c s o h = h
  password_call-Tracks user (x ∷ xs) now c s (le, le', o) h =
      password_call-Tracks user xs x.end _ (note user x s) o
        (call-Tracks user x c s le' (Tracks-later laws password user now x.start c s le h))
