-- ===== src/Reminders/Forms.antt =====
-- `remind_me` (common/utils/remind_me.py): what the form of a deal, a task or a project does to the
-- reminders of its object. Texts are numbers; the time of a reminder is that of its day at which
-- business begins, ten minutes later.
pub mod Current
use optima_management.Base.{
  ℕ, ◌+◌, ◌*◌, Bool, true, false, not, ◌&&◌, ◌||◌, Option, some, List, [], ◌∷◌, ◌++◌, map, ◌==◌,
  opt_eq, if◌then◌else◌,
}
use optima_management.Base.Lists.{filter}

-- A reminder, with the texts that the form writes.
pub record Reminder : Type 0 where
  pub content_object : ℕ
  pub subject : ℕ
  pub description : ℕ
  pub reminder_date : ℕ
  pub owner : Option ℕ
  pub active : Bool

-- What is read of the form's instance, and which of its fields have changed.
pub record Form : Type 0 where
  pub id : ℕ
  pub next_step : ℕ
  pub next_step_date : ℕ
  pub remind_me : Bool
  pub change : Bool
  pub remind_me_changed : Bool
  pub next_step_changed : Bool
  pub next_step_date_changed : Bool

-- `BUSINESS_TIME_START` of the settings, ten minutes later, in minutes of the day.
abbrev pub remind_time : ℕ
remind_time = 8 * 60 + 40

abbrev pub reminder_date_of : Form → ℕ
reminder_date_of f = f.next_step_date * 1440 + remind_time

-- The active reminders of the object and the user.
unfoldable pub is_theirs : ℕ → Form → Reminder → Bool
is_theirs user f r = r.content_object == f.id && opt_eq r.owner (some user) && r.active

-- `filter(**params)` with the description.
unfoldable pub is_same_step : ℕ → Form → Reminder → Bool
unfolding is_theirs
is_same_step user f r = is_theirs user f r && r.description == f.next_step

-- `filter(**params)` with the date in place of the description.
unfoldable pub is_same_date : ℕ → Form → Reminder → Bool
unfolding is_theirs
is_same_date user f r = is_theirs user f r && r.reminder_date == reminder_date_of f

abbrev pub created : ℕ → Form → Reminder
created user f = record {
  content_object = f.id;
  subject = f.next_step;
  description = f.next_step;
  reminder_date = reminder_date_of f;
  owner = some user;
  active = true;
}

abbrev pub dated : Form → Reminder → Reminder
dated f r = record r { reminder_date = reminder_date_of f }

abbrev pub named : Form → Reminder → Reminder
named f r = record r { subject = f.next_step; description = f.next_step }

-- `filter(...).update(...)`
unfoldable pub update : (Reminder → Bool) → (Reminder → Reminder) → List Reminder → List Reminder
update p g = map (λ r. if p r then g r else r)

unfoldable pub update_changed : ℕ → Form → List Reminder → List Reminder
unfolding update is_theirs is_same_step is_same_date
update_changed user f rs =
    if f.next_step_date_changed && not f.next_step_changed
    then update (is_same_step user f) (dated f) rs
    else if f.next_step_changed && not f.next_step_date_changed
    then update (is_same_date user f) (named f) rs
    else if f.next_step_changed && f.next_step_date_changed
    then update (is_theirs user f) (λ r. dated f (named f r)) rs
    else rs

unfoldable pub remind_me : ℕ → Form → List Reminder → List Reminder
unfolding update_changed is_same_step
remind_me user f rs =
    if f.remind_me
    then (if not f.change || f.remind_me_changed
        then rs ++ created user f ∷ []
        else update_changed user f rs)
    else if f.remind_me_changed
    then filter (λ r. not (is_same_step user f r)) rs
    else rs
