-- ===== src/Lockout/Login.antt =====
-- `LoginLockoutMiddleware` (common/middleware.py).
pub mod Runs
pub mod Attempts
use optima_management.Base.{ℕ, String, Bool, true, false, not, ◌&&◌, truthy, if◌then◌else◌}
use optima_management.Lockout.Store.{Kind, login, Cache}
use optima_management.Lockout.{
  Notice, silent, not_onboarded, is_locked_out, lockout_info, handle_failure, clear, before,
}

-- The request: whether it posts to a path with 'login', and the field 'username'.
pub record LoginRequest : Type 0 where
  pub is_login_attempt : Bool
  pub username : String

-- What `get_response` gives: the status is 200, and `request.user.is_authenticated` behind it.
pub record Reply : Type 0 where
  pub status_200 : Bool
  pub authenticated : Bool

module _ (strip : String → String) (C : Type 0) (cache : Cache C) where
  unfoldable pub is_user_locked_out : ℕ → String → C → Bool × C
  unfolding is_locked_out
  is_user_locked_out = is_locked_out C cache login

  unfoldable pub get_user_lockout_info : ℕ → String → C → ℕ
  unfolding lockout_info
  get_user_lockout_info = lockout_info C cache login

  unfoldable pub clear_user_failures : String → C → C
  unfolding clear
  clear_user_failures = clear C cache login

  -- `known` says that a user of this name exists.
  unfoldable pub handle_user_failed_login : (String → Bool) → ℕ → String → C → Notice × C
  unfolding handle_failure
  handle_user_failed_login known now user c =
      if known user then handle_failure C cache login now user c else (not_onboarded, c)

  -- What follows the view.
  unfoldable pub after_login : (String → Bool) → ℕ → String → Reply → C → Notice × C
  unfolding handle_user_failed_login clear_user_failures
  after_login known now user reply c =
      if reply.status_200 && not reply.authenticated
      then handle_user_failed_login known now user c
      else if reply.authenticated
      then (silent, clear_user_failures user c)
      else (silent, c)

  -- `__call__`: the notices before and behind the view, which runs between the two times, and the
  -- cache. The view's answer is returned as it is.
  unfoldable pub login_call :
      (String → Bool) → ℕ → ℕ → LoginRequest → Reply → C → Notice × (Notice × C)
  unfolding before after_login
  login_call known now now' req reply c =
      let user = strip req.username in
      if req.is_login_attempt && truthy user
      then (let (notice, c') = before C cache login now user c in
          (notice, after_login known now' user reply c'))
      else (silent, (silent, c))
