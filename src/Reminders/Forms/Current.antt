-- ===== src/Reminders/Forms/Current.antt =====
-- The reminder of a form's next step (common/utils/remind_me.py).
use optima_management.Base.{
  ℕ, ◌≡◌, refl, sym, ◌≢◌, ap, ◌∙◌, Bool, true, false, not, ◌&&◌, ◌||◌, ◌⊎◌, inl, inr, List, [], ◌∷◌,
  ◌++◌, ◌*◌, ◌+◌, if_true, if_false, ◌==◌, ==_refl, arith, Bool-cases,
}
use optima_management.Base.Lists.{any}
use optima_management.Reminders.Forms.{
  Reminder, Form, remind_time, reminder_date_of, is_theirs, is_same_step, is_same_date, created,
  dated, named, update, update_changed, remind_me,
}

-- An active reminder of the user for the object, with this text and for this day.
abbrev pub is_for : ℕ → Form → ℕ → ℕ → Reminder → Bool
unfolding is_theirs
is_for user f step day r =
    is_theirs user f r && (r.description == step && r.reminder_date == day * 1440 + remind_time)

any-update :
    (p q sel : Reminder → Bool) (g : Reminder → Reminder) (rs : List Reminder)
    → ((r : Reminder) → p r ≡ true → (sel r ≡ true) × (q (g r) ≡ true))
    → any p rs ≡ true
    → any q (update sel g rs) ≡ true
unfolding update
any-update p q sel g [] h e = cc
any-update p q sel g (r ∷ rs) h e = elim (Bool-cases (p r)) [
  | inl s ↦ let (chosen, here) = h r s in ground (arith, chosen, here)
  | inr s ↦ ground (arith, any-update p q sel g rs h)
]

any-implied :
    (p q : Reminder → Bool) (rs : List Reminder)
    → ((r : Reminder) → p r ≡ true → q r ≡ true)
    → any p rs ≡ true
    → any q rs ≡ true
any-implied p q [] h e = cc
any-implied p q (r ∷ rs) h e = elim (Bool-cases (p r)) [
  | inl s ↦ let here = h r s in ground arith
  | inr s ↦ ground (arith, any-implied p q rs h)
]

any-append :
    (q : Reminder → Bool) (rs : List Reminder) (r : Reminder)
    → q r ≡ true
    → any q (rs ++ r ∷ []) ≡ true
any-append q [] r h = ground arith
any-append q (x ∷ rs) r h = ground (arith, any-append q rs r h)

true-ne-false : true ≢ false
true-ne-false h = cc

module _ (user : ℕ) (f : Form) where
  abbrev current : Reminder → Bool
  current = is_for user f f.next_step f.next_step_date

  created-current : current (created user f) ≡ true
  unfolding is_theirs
  created-current =
      rw (==_refl f.id, ==_refl user, ==_refl f.next_step, ==_refl (reminder_date_of f)) refl

  changed_current :
      (step day : ℕ) (rs : List Reminder)
      → f.next_step_changed ≡ not (step == f.next_step)
      → f.next_step_date_changed ≡ not (day == f.next_step_date)
      → any (is_for user f step day) rs ≡ true
      → any current (update_changed user f rs) ≡ true
  unfolding update_changed is_theirs is_same_step is_same_date
  changed_current step day rs s d was =
      let P = λ (rs' : List Reminder). any current rs' ≡ true in
      let a = f.next_step_date_changed && not f.next_step_changed in
      let b = f.next_step_changed && not f.next_step_date_changed in
      let c = f.next_step_changed && f.next_step_date_changed in
      elim (Bool-cases (step == f.next_step)) [
        | inl e ↦
            let s' = s ∙ ap not e in
            elim (Bool-cases (day == f.next_step_date)) [
              | inl g ↦
                  let d' = d ∙ ap not g in
                  if_false P a _ _ (ground arith) (
                    if_false P b _ _ (ground arith) (
                      if_false P c _ rs (ground arith) (
                        any-implied (is_for user f step day) current rs (λ r h. ground arith) was)))
              | inr g ↦
                  let d' = d ∙ ap not g in
                  if_true P a _ _ (ground arith) (
                    any-update (is_for user f step day) current (is_same_step user f) (dated f) rs
                      (λ r h. (ground arith, ground arith)) was)
            ]
        | inr e ↦
            let s' = s ∙ ap not e in
            elim (Bool-cases (day == f.next_step_date)) [
              | inl g ↦
                  let d' = d ∙ ap not g in
                  if_false P a _ _ (ground arith) (
                    if_true P b _ _ (ground arith) (
                      any-update (is_for user f step day) current (is_same_date user f) (named f) rs
                        (λ r h. (ground arith, ground arith)) was))
              | inr g ↦
                  let d' = d ∙ ap not g in
                  if_false P a _ _ (ground arith) (
                    if_false P b _ _ (ground arith) (
                      if_true P c _ rs (ground arith) (
                        any-update (is_for user f step day) current (is_theirs user f)
                          (λ r. dated f (named f r)) rs (λ r h. (ground arith, ground arith)) was)))
            ]
      ]

  -- A form with the reminder switched on, whose object had the active reminder for its former step and
  -- day, or that switches it on or is new: behind it there is one for the present step and day.
  pub remind_me_current :
      (step day : ℕ) (rs : List Reminder)
      → f.remind_me ≡ true
      → f.next_step_changed ≡ not (step == f.next_step)
      → f.next_step_date_changed ≡ not (day == f.next_step_date)
      → ((not f.change || f.remind_me_changed) ≡ true) ⊎ (any (is_for user f step day) rs ≡ true)
      → any current (remind_me user f rs) ≡ true
  unfolding remind_me
  remind_me_current step day rs on s d h =
      let P = λ (rs' : List Reminder). any current rs' ≡ true in
      if_true P f.remind_me _ _ on (elim (Bool-cases (not f.change || f.remind_me_changed)) [
        | inl new ↦
            if_true P (not f.change || f.remind_me_changed) _ _ new
              (any-append current rs (created user f) created-current)
        | inr old ↦ if_false P (not f.change || f.remind_me_changed) _ _ old (
            changed_current step day rs s d
              (elim h [ inl new ↦ absurd (true-ne-false (sym new ∙ old)) | inr was ↦ was ]))
      ])
