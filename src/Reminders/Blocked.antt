-- ===== src/Reminders/Blocked.antt =====
-- When a run over the reminders raises (common/utils/reminders_sender.py).
use optima_management.Base.{
  ℕ, ◌≡◌, refl, sym, ap, ◌∙◌, Bool, true, false, not, ◌&&◌, ◌||◌, Option, none, some, [], ◌∷◌, ◌==◌,
  arith, is_some, if◌then◌else◌, Bool-cases, inl, inr, ==_iff, if-both,
}
use optima_management.Base.Table.{Table}
use optima_management.Reminders.{
  Reminder, Objects, Ended, is_due, is_refused, forget, settled, remind, send_remainders,
}

-- No active reminder is due any more.
abbrev pub none_due : ℕ → Table Reminder → Bool
none_due now [] = true
none_due now ((k, r) ∷ rows) = not (is_due now r) && none_due now rows

forget-is_some :
    (k j : ℕ) (objects : Objects)
    → is_some (objects k) ≡ true
    → is_some (forget k objects j) ≡ is_some (objects j)
unfolding forget
forget-is_some k j objects h = elim (Bool-cases (j == k)) [
  | inl e ↦ rw e (sym h ∙ ap (λ i. is_some (objects i)) (sym ((==_iff j k).0 e)))
  | inr n ↦ rw n refl
]

module _ (has_email has_page : ℕ → Bool) (refuses : ℕ → ℕ → Bool) where
  -- The reminder has an owner, and no mail to the administrators about it is refused.
  abbrev pub can_be_told : ℕ → ℕ → Reminder → Option ℕ → Bool
  can_be_told now k r none = false
  can_be_told now k r (some owner) =
      not (r.send_notification_email && (not (has_email owner) && refuses now k))

  -- Every due reminder has an object with a page, and can be told.
  abbrev pub all_served : ℕ → Objects → Table Reminder → Bool
  all_served now objects [] = true
  all_served now objects ((k, r) ∷ rows) =
      (not (is_due now r)
        || ((is_some (objects r.content_object) && has_page r.content_object)
            && can_be_told now k r r.owner))
      && all_served now objects rows

  all_served_same :
      (now : ℕ) (a b : Objects) (rows : Table Reminder)
      → ((j : ℕ) → is_some (a j) ≡ is_some (b j))
      → all_served now a rows ≡ all_served now b rows
  all_served_same now a b [] h = refl
  all_served_same now a b ((k, r) ∷ rows) h =
      ground (arith, h r.content_object, all_served_same now a b rows h)

  -- A run that raised nothing, and only then, leaves no row that is due.
  pub record Settles (now : ℕ) (objects : Objects) (rows : Table Reminder) (x : Ended)
      : Type 0 where
    pub served : x.0 ≡ all_served now objects rows
    pub settles : none_due now x.1.0 ≡ x.0

  remind-Settles :
      (now k : ℕ) (r : Reminder) (rows : Table Reminder) (objects : Objects) (o : Option Bool)
      (owner : Option ℕ) (rest : Objects → Ended)
      → is_due now r ≡ true
      → objects r.content_object ≡ o
      → r.owner ≡ owner
      → ((objects' : Objects) → Settles now objects' rows (rest objects'))
      → Settles now objects
          ((k, r) ∷ rows)
          (remind has_email has_page refuses now k r rows objects o owner rest)
  unfolding remind settled is_refused
  remind-Settles now k r rows objects none owner rest d e f h = record {
    served = ground (arith, d, ap is_some e);
    settles = ground (arith, d);
  }
  remind-Settles now k r rows objects (some flag) none rest d e f h = record {
    served = ground (arith, d, ap is_some e, ap (can_be_told now k r) f);
    settles = ground (arith, d);
  }
  remind-Settles now k r rows objects (some flag) (some owner) rest d e f h =
      let objects' : Objects = if flag then forget r.content_object objects else objects in
      let same : all_served now objects' rows ≡ all_served now objects rows =
        all_served_same now objects' objects rows (
          if-both (λ (os : Objects). (j : ℕ) → is_some (os j) ≡ is_some (objects j)) flag _ objects
            (λ j. forget-is_some r.content_object j objects (ap is_some e)) (λ j. refl)) in
      record {
        served =
            ground (arith, (h objects').served, same, ap is_some e, ap (can_be_told now k r) f, d);
        settles = ground (arith, (h objects').settles);
      }

  -- A run raises nothing exactly where every due reminder has an object with a page and an owner, and
  -- no mail to the administrators about it is refused; and exactly then none is due any more.
  pub send_remainders-Settles :
      (now : ℕ) (rows : Table Reminder) (objects : Objects)
      → Settles now objects rows (send_remainders has_email has_page refuses now rows objects)
  unfolding send_remainders
  send_remainders-Settles now [] objects = record { served = refl; settles = refl }
  send_remainders-Settles now ((k, r) ∷ rows) objects = elim (Bool-cases (is_due now r)) [
    | inl due ↦ rw due (
        remind-Settles now k r rows objects _ _ _ due refl refl
          (λ objects'. send_remainders-Settles now rows objects'))
    | inr later ↦
        let h = send_remainders-Settles now rows objects in
        rw later (record {
          served = ground (arith, later, h.served);
          settles = ground (arith, later, h.settles);
        })
  ]
