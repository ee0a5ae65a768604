-- ===== src/Lockout/Store.antt =====
-- Django's cache, as far as common/middleware.py uses it: an interface of operations with the laws
-- that its documentation gives. A key is a text with one of four prefixes and the username; the
-- prefixes differ before either ends, so a key is its prefix and the name. Nothing is evicted before
-- its timeout.
use optima_management.Base.{
  ℕ, ◌+◌, ◌≤◌, ◌<◌, ◌≡◌, String, Bool, true, false, ◌&&◌, Option, none, some, str_eq,
}

-- The two middlewares.
pub data Kind : Type 0 where
  login password : Kind

pub data Key : Type 0 where
  failures lockout : Kind → String → Key

abbrev pub same_kind : Kind → Kind → Bool
same_kind login login = true
same_kind password password = true
same_kind _ _ = false

abbrev pub same_key : Key → Key → Bool
same_key (failures a s) (failures b t) = same_kind a b && str_eq s t
same_key (lockout a s) (lockout b t) = same_kind a b && str_eq s t
same_key _ _ = false

-- The values are counts of failures and times of locks.
pub record Cache (C : Type 0) : Type 0 where
  pub get : ℕ → Key → C → Option ℕ
  -- The time, the key, the value and the timeout.
  pub set : ℕ → Key → ℕ → ℕ → C → C
  pub delete : Key → C → C

pub record CacheLaws (C : Type 0) (cache : Cache C) : Type 0 where
  pub get-set :
      (now t : ℕ) (k : Key) (v timeout : ℕ) (c : C)
      → now ≤ t
      → t < now + timeout
      → cache.get t k (cache.set now k v timeout c) ≡ some v
  pub get-set_expired :
      (now t : ℕ) (k : Key) (v timeout : ℕ) (c : C)
      → now + timeout ≤ t
      → cache.get t k (cache.set now k v timeout c) ≡ none
  pub get-set_ne :
      (now t : ℕ) (j k : Key) (v timeout : ℕ) (c : C)
      → same_key j k ≡ false
      → cache.get t j (cache.set now k v timeout c) ≡ cache.get t j c
  pub get-delete : (t : ℕ) (k : Key) (c : C) → cache.get t k (cache.delete k c) ≡ none
  pub get-delete_ne :
      (t : ℕ) (j k : Key) (c : C)
      → same_key j k ≡ false
      → cache.get t j (cache.delete k c) ≡ cache.get t j c
