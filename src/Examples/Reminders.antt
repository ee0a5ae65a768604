-- ===== src/Examples/Reminders.antt =====
-- Examples for the reminders (common).
use optima_management.Base.{ℕ, zero, List, ◌≡◌, refl, inr, false, true, none, some, [], ◌∷◌}
use optima_management.Base.Table.{Table}
use optima_management.Reminders.{Reminder, Objects, send_remainders}
use optima_management.Base.Lists.{any}
use optima_management.Reminders.Forms
use optima_management.Reminders.Forms.{Form, created, is_theirs, remind_me}
use optima_management.Reminders.Forms.Current.{is_for, remind_me_current}
use optima_management.Reminders.Once.{Spends, run_all, run_all-Spends}
use optima_management.Reminders.Blocked.{Settles, send_remainders-Settles}

abbrev reminder : ℕ → Reminder
reminder object = record {
  content_object = object;
  owner = some 2;
  reminder_date = 50;
  active = true;
  send_notification_email = true;
}

-- The object of the second reminder is gone.
abbrev objects : Objects
objects zero = some true
objects _ = none

abbrev rows : Table Reminder
rows = (7, reminder 0) ∷ (8, reminder 1) ∷ []

spent_example :
    Spends 7 rows (run_all (λ u. true) (λ o. true) (λ now k. false) 7 (60 ∷ 70 ∷ []) rows objects)
spent_example =
    run_all-Spends (λ u. true) (λ o. true) (λ now k. false) 7 (60 ∷ 70 ∷ []) rows objects

settled_example :
    Settles
      (λ u. true)
      (λ o. true)
      (λ now k. false)
      60
      objects
      rows
      (send_remainders (λ u. true) (λ o. true) (λ now k. false) 60 rows objects)
settled_example = send_remainders-Settles (λ u. true) (λ o. true) (λ now k. false) 60 rows objects

-- The step of an object changes, its day stays.
abbrev form : Form
form = record {
  id = 4;
  next_step = 31;
  next_step_date = 9;
  remind_me = true;
  change = true;
  remind_me_changed = false;
  next_step_changed = true;
  next_step_date_changed = false;
}

abbrev former : List Forms.Reminder
former = created 2 (record form { next_step = 30 }) ∷ []

had : any (is_for 2 form 30 9) former ≡ true
unfolding is_theirs
had = refl

step_example : any (is_for 2 form 31 9) (remind_me 2 form former) ≡ true
step_example = remind_me_current 2 form 30 9 former refl refl refl (inr had)
