-- ===== src/Lockout.antt =====
-- `LoginLockoutMiddleware` and `PasswordChangeLockoutMiddleware` (common/middleware.py): three
-- failures lock a user for half an hour. Times are seconds; texts of messages are left out.
pub mod Store
pub mod Login
pub mod Password
pub mod Status
pub mod Frame
pub mod Checks
use optima_management.Base.{
  ℕ, ◌+◌, ◌-◌, ◌/◌, String, Bool, true, false, not, Option, none, some, ltb, leb, get_or,
  if◌then◌else◌,
}
use Store.{Kind, login, password, Key, failures, lockout, Cache}

-- What the user is told; the number is that of minutes or of attempts.
pub data Notice : Type 0 where
  silent not_onboarded now_locked : Notice
  still_locked attempts_left : ℕ → Notice

-- 30 minutes, the timeout of both keys too.
abbrev pub half_hour : ℕ
half_hour = 1800

module _ (C : Type 0) (cache : Cache C) where
  unfoldable pub clear : Kind → String → C → C
  clear kind user c = cache.delete (lockout kind user) (cache.delete (failures kind user) c)

  -- A lock of half an hour or more clears both keys.
  unfoldable pub locked_since : Kind → ℕ → String → C → Option ℕ → Bool × C
  unfolding clear
  locked_since kind now user c none = (false, c)
  locked_since kind now user c (some t) =
      if ltb (now - t) half_hour then (true, c) else (false, clear kind user c)

  unfoldable pub is_locked_out : Kind → ℕ → String → C → Bool × C
  unfolding locked_since
  is_locked_out kind now user c = locked_since kind now user c (cache.get now (lockout kind user) c)

  -- `max(0, int(remaining.total_seconds() / 60))`
  unfoldable pub minutes_left : ℕ → Option ℕ → ℕ
  minutes_left now none = 0
  minutes_left now (some t) = (t + half_hour - now) / 60

  unfoldable pub lockout_info : Kind → ℕ → String → C → ℕ
  unfolding minutes_left
  lockout_info kind now user c = minutes_left now (cache.get now (lockout kind user) c)

  -- The count is stored, and the third failure stores the time of the lock.
  unfoldable pub count_failure : Kind → ℕ → String → ℕ → C → Notice × C
  count_failure kind now user n c =
      let c' = cache.set now (failures kind user) n half_hour c in
      if leb 3 n
      then (now_locked, cache.set now (lockout kind user) now half_hour c')
      else (attempts_left (3 - n), c')

  unfoldable pub unless_locked : Kind → ℕ → String → Bool × C → Notice × C
  unfolding count_failure
  unless_locked kind now user (locked, c) =
      if locked
      then (silent, c)
      else count_failure kind now user (get_or 0 (cache.get now (failures kind user) c) + 1) c

  unfoldable pub handle_failure : Kind → ℕ → String → C → Notice × C
  unfolding unless_locked is_locked_out
  handle_failure kind now user c = unless_locked kind now user (is_locked_out kind now user c)

  -- The check before the view runs; a locked user is only told so.
  unfoldable pub told : Kind → ℕ → String → Bool × C → Notice × C
  unfolding lockout_info
  told kind now user (locked, c) =
      if locked then (still_locked (lockout_info kind now user c), c) else (silent, c)

  unfoldable pub before : Kind → ℕ → String → C → Notice × C
  unfolding told is_locked_out
  before kind now user c = told kind now user (is_locked_out kind now user c)
