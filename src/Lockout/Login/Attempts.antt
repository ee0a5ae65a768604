-- ===== src/Lockout/Login/Attempts.antt =====
-- Three wrong passwords, and a right one behind them, at `LoginLockoutMiddleware`
-- (common/middleware.py).
use optima_management.Base.{
  ℕ, ◌+◌, ◌≤◌, ◌<◌, ◌≡◌, refl, sym, ap, ◌∙◌, String, Bool, true, false, ◌&&◌, [], ◌∷◌, arith,
  str_eq, truthy, ltb, if◌then◌else◌,
}
use mathlib.Core.Path.{subst}
use optima_management.Lockout.Store.{login, Cache, CacheLaws}
use optima_management.Lockout.{Notice, silent, still_locked, half_hour, told, before, lockout_info}
use optima_management.Lockout.Login.{
  after_login, login_call, is_user_locked_out, get_user_lockout_info,
}
use optima_management.Lockout.Login.Runs.{
  Call, InOrder, note, note_all, call_all, login_call-Tracks,
}
use optima_management.Lockout.Status.{
  Status, Tracks, Tracks-later, failed, cleared, locked, is_locked_out_lem,
}

-- Three failures, each less than half an hour behind the one before.
failed_three :
    (a b c t : ℕ)
    → a ≤ b
    → b ≤ c
    → c ≤ t
    → b < a + half_hour
    → c < b + half_hour
    → locked t (failed c (failed b (failed a cleared))) ≡ ltb t (c + half_hour)
failed_three a b c t h i j p q = ground arith

module _ (strip : String → String) (known : String → Bool) {C : Type 0} {cache : Cache C}
    (laws : CacheLaws C cache) (user : String) where
  pub record IsAttempt (x : Call) : Type 0 where
    pub posts : x.request.is_login_attempt ≡ true
    pub named : truthy (strip x.request.username) ≡ true
    pub by_user : str_eq user (strip x.request.username) ≡ true

  -- The page is shown again, to nobody who is logged in.
  pub record IsFailure (x : Call) : Type 0 where
    pub attempt : IsAttempt x
    pub shown : x.reply.status_200 ≡ true
    pub out : x.reply.authenticated ≡ false

  note_failure :
      (x : Call) (s : Status)
      → known user ≡ true
      → IsFailure x
      → note strip known user x s ≡ failed x.end s
  note_failure x s k f = rw (f.attempt.posts, f.attempt.named, f.attempt.by_user, f.shown, f.out, k)

  note_failures :
      (x y z : Call)
      → known user ≡ true
      → IsFailure x
      → IsFailure y
      → IsFailure z
      → note_all strip known user (x ∷ y ∷ z ∷ []) cleared
        ≡ failed z.end (failed y.end (failed x.end cleared))
  note_failures x y z k fx fy fz =
      ap (λ s. note strip known user z (note strip known user y s)) (note_failure x cleared k fx)
      ∙ ap (note strip known user z) (note_failure y (failed x.end cleared) k fy)
      ∙ note_failure z (failed y.end (failed x.end cleared)) k fz

  is_locked_out-Tracks :
      (now t : ℕ) (c : C) (s : Status)
      → now ≤ t
      → Tracks laws login user now c s
      → (is_user_locked_out strip C cache t user c).0 ≡ locked t s
  unfolding is_user_locked_out
  is_locked_out-Tracks now t c s le h =
      ap (λ (x : Bool × C). x.0)
        (is_locked_out_lem laws login user t c s (Tracks-later laws login user now t c s le h))

  -- Where the cache has no failures and no lock of a user who exists, three failed attempts that are the
  -- next calls, each less than half an hour behind the one before, lock the user from the last one on
  -- for half an hour, and not longer.
  pub three_failures-locked :
      (x y z : Call) (now t : ℕ) (c : C)
      → known user ≡ true
      → InOrder now (x ∷ y ∷ z ∷ [])
      → IsFailure x
      → IsFailure y
      → IsFailure z
      → y.end < x.end + half_hour
      → z.end < y.end + half_hour
      → z.end ≤ t
      → Tracks laws login user now c cleared
      → (is_user_locked_out strip C cache t user (call_all strip known laws (x ∷ y ∷ z ∷ []) c)).0
        ≡ ltb t (z.end + half_hour)
  three_failures-locked x y z now t c k o fx fy fz p q le h =
      is_locked_out-Tracks z.end t _ _ le
        (login_call-Tracks strip known laws user (x ∷ y ∷ z ∷ []) now c cleared o h)
      ∙ ap (locked t) (note_failures x y z k fx fy fz)
      ∙ failed_three x.end y.end z.end t (omega (arith, o)) (omega (arith, o)) le p q

  told-locked :
      (now : ℕ) (c : C) (o : Bool × C)
      → o ≡ (true, c)
      → (told C cache login now user o).0 ≡ still_locked (lockout_info C cache login now user c)
  unfolding told
  told-locked now c o e =
      subst
        (λ x.
          (told C cache login now user x).0 ≡ still_locked (lockout_info C cache login now user c))
        (sym e) refl

  before-locked :
      (now : ℕ) (c : C) (s : Status)
      → Tracks laws login user now c s
      → locked now s ≡ true
      → (before C cache login now user c).0 ≡ still_locked (lockout_info C cache login now user c)
  unfolding before
  before-locked now c s h l =
      told-locked now c _ (is_locked_out_lem laws login user now c s h ∙ ap (λ b. (b, c)) l)

  note_success :
      (x : Call) (s : Status)
      → IsAttempt x
      → x.reply.authenticated ≡ true
      → note strip known user x s ≡ cleared
  note_success x s a r = rw (a.posts, a.named, a.by_user, r) (ground arith)

  -- The lock does not lock: a locked user who sends the right password is told that the account is
  -- locked, is logged in by the view, and the lock is gone.
  pub locked_login-cleared :
      (x : Call) (t : ℕ) (c : C) (s : Status)
      → x.start ≤ x.end
      → x.end ≤ t
      → IsAttempt x
      → strip x.request.username ≡ user
      → x.reply.authenticated ≡ true
      → Tracks laws login user x.start c s
      → locked x.start s ≡ true
      → ((login_call strip C cache known x.start x.end x.request x.reply c).0
          ≡ still_locked (get_user_lockout_info strip C cache x.start user c))
        × ((is_user_locked_out strip C cache t user
              (login_call strip C cache known x.start x.end x.request x.reply c).1.1).0
            ≡ false)
  unfolding login_call get_user_lockout_info
  locked_login-cleared x t c s le le' a u r h l = (
    notice (x.request.is_login_attempt) (truthy (strip x.request.username)) a.posts a.named,
    is_locked_out-Tracks x.end t _ _ le'
          (login_call-Tracks strip known laws user (x ∷ []) x.start c s (omega arith, le, tt) h)
        ∙ ap (locked t) (note_success x s a r),
  )
    where
      notice :
          (p q : Bool)
          → p ≡ true
          → q ≡ true
          → (if◌then◌else◌ {A = Notice × (Notice × C)}
              (p && q)
              (let (n, c') = before C cache login x.start (strip x.request.username) c in
                (n, after_login strip C cache known x.end (strip x.request.username) x.reply c'))
              (silent, (silent, c))).0
            ≡ still_locked (lockout_info C cache login x.start user c)
      notice true true e f =
          ap (λ v. (before C cache login x.start v c).0) u ∙ before-locked x.start c s h l
      notice false q e f = cc
      notice true false e f = cc
