-- ===== src/Lockout/Status.antt =====
-- What the two keys of a user stand for: an ideal lock with a count of failures, both with an end.
use optima_management.Base.{
  ℕ, ◌+◌, ◌≤◌, ◌≡◌, refl, sym, ap, ◌∙◌, String, Bool, true, false, Option, none, some, arith, ltb,
  leb, get_or, is_some, if◌then◌else◌, Bool-cases, inl, inr,
}
use mathlib.Core.Path.{subst}
use optima_management.Lockout.Store.{Kind, Key, failures, lockout, Cache, CacheLaws}
use optima_management.Lockout.{
  half_hour, clear, locked_since, is_locked_out, count_failure, unless_locked, handle_failure,
}

-- The number of failures with the time at which it is forgotten, and the time of the lock.
pub record Status : Type 0 where
  pub count : Option (ℕ × ℕ)
  pub lock : Option ℕ

abbrev pub read_count : ℕ → Option (ℕ × ℕ) → Option ℕ
read_count t none = none
read_count t (some (n, end)) = if ltb t end then some n else none

abbrev pub read_lock : ℕ → Option ℕ → Option ℕ
read_lock t none = none
read_lock t (some since) = if ltb t (since + half_hour) then some since else none

abbrev pub locked : ℕ → Status → Bool
locked now s = is_some (read_lock now s.lock)

-- The failures that are remembered, this one included.
abbrev pub next_count : ℕ → Status → ℕ
next_count now s = get_or 0 (read_count now s.count) + 1

abbrev pub failed : ℕ → Status → Status
failed now s = if locked now s then s else (record {
  count = some (next_count now s, now + half_hour);
  lock = if leb 3 (next_count now s) then some now else s.lock;
})

abbrev pub cleared : Status
cleared = record { count = none; lock = none }

module _ {C : Type 0} {cache : Cache C} (laws : CacheLaws C cache) (kind : Kind)
    (user : String) where
  -- From `now` on the cache reads as the status does.
  pub record Tracks (now : ℕ) (c : C) (s : Status) : Type 0 where
    pub counts : (t : ℕ) → now ≤ t → cache.get t (failures kind user) c ≡ read_count t s.count
    pub locks : (t : ℕ) → now ≤ t → cache.get t (lockout kind user) c ≡ read_lock t s.lock

  pub Tracks-later :
      (now now' : ℕ) (c : C) (s : Status) → now ≤ now' → Tracks now c s → Tracks now' c s
  Tracks-later now now' c s le h = record {
    counts = λ t le'. h.counts t (omega arith);
    locks = λ t le'. h.locks t (omega arith);
  }

  -- The test of the lock never clears a key: the cache forgets the lock when it is over.
  locked_since_lem :
      (now : ℕ) (c : C) (o : Option ℕ)
      → locked_since C cache kind now user c (read_lock now o) ≡ (is_some (read_lock now o), c)
  unfolding locked_since
  locked_since_lem now c none = refl
  locked_since_lem now c (some since) = ground arith

  pub is_locked_out_lem :
      (now : ℕ) (c : C) (s : Status)
      → Tracks now c s
      → is_locked_out C cache kind now user c ≡ (locked now s, c)
  unfolding is_locked_out
  is_locked_out_lem now c s h =
      ap (locked_since C cache kind now user c) (h.locks now (omega arith))
      ∙ locked_since_lem now c s.lock

  get-set_read :
      (now t : ℕ) (k : Key) (v : ℕ) (c : C)
      → now ≤ t
      → cache.get t k (cache.set now k v half_hour c)
        ≡ (if ltb t (now + half_hour) then some v else none)
  get-set_read now t k v c le = elim (Bool-cases (ltb t (now + half_hour))) [
    | inl y ↦ rw y (laws.get-set now t k v half_hour c le (ground (arith, y)))
    | inr n ↦ rw n (laws.get-set_expired now t k v half_hour c (ground (arith, n)))
  ]

  -- A failure that is counted.
  counted : ℕ → ℕ → Status → Status
  counted now n s = record {
    count = some (n, now + half_hour);
    lock = if leb 3 n then some now else s.lock;
  }

  count_failure-Tracks :
      (now n : ℕ) (c : C) (s : Status)
      → Tracks now c s
      → Tracks now (count_failure C cache kind now user n c).1 (counted now n s)
  unfolding count_failure counted
  count_failure-Tracks now n c s h = elim (Bool-cases (leb 3 n)) [
    | inl y ↦ rw y (record {
      counts = λ t le.
          laws.get-set_ne now t (failures kind user) (lockout kind user) now half_hour _ refl
          ∙ get-set_read now t (failures kind user) n c le;
      locks = λ t le. get-set_read now t (lockout kind user) now _ le;
    })
    | inr few ↦ rw few (record {
      counts = λ t le. get-set_read now t (failures kind user) n c le;
      locks = λ t le.
          laws.get-set_ne now t (lockout kind user) (failures kind user) n half_hour c refl
          ∙ h.locks t le;
    })
  ]

  pub handle_failure-Tracks :
      (now : ℕ) (c : C) (s : Status)
      → Tracks now c s
      → Tracks now (handle_failure C cache kind now user c).1 (failed now s)
  unfolding handle_failure unless_locked counted
  handle_failure-Tracks now c s h =
      subst (λ x. Tracks now (unless_locked C cache kind now user x).1 (failed now s))
        (sym (is_locked_out_lem now c s h)) (go (locked now s))
    where
      go :
          (b : Bool)
          → Tracks now
              (unless_locked C cache kind now user (b, c)).1
              (if b then s else counted now (next_count now s) s)
      go true = h
      go false =
          subst
            (λ o.
              Tracks now (count_failure C cache kind now user (get_or 0 o + 1) c).1
                (counted now (next_count now s) s))
            (sym (h.counts now (omega arith))) (count_failure-Tracks now (next_count now s) c s h)

  pub clear-Tracks : (now : ℕ) (c : C) → Tracks now (clear C cache kind user c) cleared
  unfolding clear
  clear-Tracks now c = record {
    counts = λ t le.
        laws.get-delete_ne t (failures kind user) (lockout kind user) _ refl
        ∙ laws.get-delete t (failures kind user) c;
    locks = λ t le. laws.get-delete t (lockout kind user) _;
  }
