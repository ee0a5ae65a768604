-- ===== src/Lockout/Password.antt =====
-- `PasswordChangeLockoutMiddleware` (common/middleware.py).
pub mod Changes
use optima_management.Base.{ℕ, String, Bool, true, false, not, ◌&&◌, if◌then◌else◌}
use optima_management.Lockout.Store.{Kind, password, Cache}
use optima_management.Lockout.{
  Notice, silent, is_locked_out, lockout_info, handle_failure, clear, before,
}

-- What `get_response` gives: the page with an error, a redirect, or anything else.
pub data PasswordReply : Type 0 where
  error_page redirected other : PasswordReply

module _ (C : Type 0) (cache : Cache C) where
  unfoldable pub is_user_locked_out_password : ℕ → String → C → Bool × C
  unfolding is_locked_out
  is_user_locked_out_password = is_locked_out C cache password

  unfoldable pub get_user_lockout_info_password : ℕ → String → C → ℕ
  unfolding lockout_info
  get_user_lockout_info_password = lockout_info C cache password

  unfoldable pub handle_user_failed_password_change : ℕ → String → C → Notice × C
  unfolding handle_failure
  handle_user_failed_password_change = handle_failure C cache password

  unfoldable pub clear_user_password_failures : String → C → C
  unfolding clear
  clear_user_password_failures = clear C cache password

  unfoldable pub after_password : ℕ → String → PasswordReply → C → Notice × C
  unfolding handle_user_failed_password_change clear_user_password_failures
  after_password now user error_page c = handle_user_failed_password_change now user c
  after_password now user redirected c = (silent, clear_user_password_failures user c)
  after_password now user other c = (silent, c)

  -- `__call__` for a request of this user; `attempt` says that it posts to 'password_change' and
  -- the user is authenticated, before the view and behind it.
  unfoldable pub password_call : Bool → ℕ → ℕ → String → PasswordReply → C → Notice × (Notice × C)
  unfolding before after_password
  password_call attempt now now' user reply c =
      if attempt
      then (let (notice, c') = before C cache password now user c in
          (notice, after_password now' user reply c'))
      else (silent, (silent, c))
