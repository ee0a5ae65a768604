-- ===== src/Lockout/Frame.antt =====
-- What a call for one user does to the keys of another (common/middleware.py).
use optima_management.Base.{
  ℕ, ◌≡◌, refl, ap, ◌∙◌, String, Bool, true, false, ◌&&◌, Option, none, some, arith, str_eq,
  if-both,
}
use optima_management.Lockout.Store.{Kind, failures, lockout, same_kind, Cache, CacheLaws}
use optima_management.Lockout.{
  half_hour, clear, locked_since, is_locked_out, count_failure, unless_locked, handle_failure,
  Notice,
}
use optima_management.Lockout.Status.{Status, Tracks}

module _ {C : Type 0} {cache : Cache C} (laws : CacheLaws C cache) (kind : Kind)
    (user other : String) (apart : str_eq user other ≡ false) where
  -- The two keys of the user read as before.
  pub record Same (c c' : C) : Type 0 where
    pub counts : (t : ℕ) → cache.get t (failures kind user) c' ≡ cache.get t (failures kind user) c
    pub locks : (t : ℕ) → cache.get t (lockout kind user) c' ≡ cache.get t (lockout kind user) c

  pub Same-refl : (c : C) → Same c c
  Same-refl c = record { counts = λ t. refl; locks = λ t. refl }

  pub Same-trans : (a b c : C) → Same a b → Same b c → Same a c
  Same-trans a b c p q = record {
    counts = λ t. q.counts t ∙ p.counts t;
    locks = λ t. q.locks t ∙ p.locks t;
  }

  apart_keys : (same_kind kind kind && str_eq user other) ≡ false
  apart_keys = ap (same_kind kind kind &&◌) apart ∙ ground arith

  Same-set_count : (now n : ℕ) (c : C) → Same c (cache.set now (failures kind other) n half_hour c)
  Same-set_count now n c = record {
    counts = λ t.
        laws.get-set_ne now t (failures kind user) (failures kind other) n half_hour c apart_keys;
    locks = λ t. laws.get-set_ne now t (lockout kind user) (failures kind other) n half_hour c refl;
  }

  Same-set_lock : (now n : ℕ) (c : C) → Same c (cache.set now (lockout kind other) n half_hour c)
  Same-set_lock now n c = record {
    counts =
        λ t. laws.get-set_ne now t (failures kind user) (lockout kind other) n half_hour c refl;
    locks = λ t.
        laws.get-set_ne now t (lockout kind user) (lockout kind other) n half_hour c apart_keys;
  }

  pub Same-clear : (c : C) → Same c (clear C cache kind other c)
  unfolding clear
  Same-clear c = record {
    counts = λ t.
        laws.get-delete_ne t (failures kind user) (lockout kind other) _ refl
        ∙ laws.get-delete_ne t (failures kind user) (failures kind other) c apart_keys;
    locks = λ t.
        laws.get-delete_ne t (lockout kind user) (lockout kind other) _ apart_keys
        ∙ laws.get-delete_ne t (lockout kind user) (failures kind other) c refl;
  }

  Same-locked_since :
      (now : ℕ) (c : C) (o : Option ℕ) → Same c (locked_since C cache kind now other c o).1
  unfolding locked_since
  Same-locked_since now c none = Same-refl c
  Same-locked_since now c (some t) =
      if-both (λ (x : Bool × C). Same c x.1) _ (true, c) (false, clear C cache kind other c)
        (Same-refl c) (Same-clear c)

  pub Same-is_locked_out : (now : ℕ) (c : C) → Same c (is_locked_out C cache kind now other c).1
  unfolding is_locked_out
  Same-is_locked_out now c = Same-locked_since now c _

  Same-count_failure : (now n : ℕ) (c : C) → Same c (count_failure C cache kind now other n c).1
  unfolding count_failure
  Same-count_failure now n c =
      let c' = cache.set now (failures kind other) n half_hour c in
      if-both (λ (x : Notice × C). Same c x.1) _
        (_, cache.set now (lockout kind other) now half_hour c') (_, c')
        (Same-trans c c' _ (Same-set_count now n c) (Same-set_lock now now c'))
        (Same-set_count now n c)

  Same-unless_locked :
      (now : ℕ) (c : C) (x : Bool × C)
      → Same c x.1
      → Same c (unless_locked C cache kind now other x).1
  unfolding unless_locked
  Same-unless_locked now c (true, c') h = h
  Same-unless_locked now c (false, c') h = Same-trans c c' _ h (Same-count_failure now _ c')

  pub Same-handle_failure : (now : ℕ) (c : C) → Same c (handle_failure C cache kind now other c).1
  unfolding handle_failure
  Same-handle_failure now c = Same-unless_locked now c _ (Same-is_locked_out now c)

  pub Same-Tracks :
      (now : ℕ) (c c' : C) (s : Status)
      → Same c c'
      → Tracks laws kind user now c s
      → Tracks laws kind user now c' s
  Same-Tracks now c c' s e h = record {
    counts = λ t le. e.counts t ∙ h.counts t le;
    locks = λ t le. e.locks t ∙ h.locks t le;
  }
