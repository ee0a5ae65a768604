-- ===== src/Tasks/Closing.antt =====
-- The state of a task and its subtasks under the operations of tasks/models/task.py, and the date of
-- the next step.
use optima_management.Base.{
  some-eq, ℕ, ◌<◌, ◌≡◌, ◌≢◌, ◌⊎◌, inl, inr, refl, sym, ap, Bool, true, false, not, ◌&&◌, Option,
  none, some, [], ◌∷◌, opt_eq, is_some, if◌then◌else◌, arith, Bool-cases,
}
use mathlib.Core.Path.{subst}
use optima_management.Base.Lists.{elem}
use optima_management.Base.Table.{Table, get, put, find, exists, AllRows, AllRows-put}
use optima_management.Tasks.{
  TaskStage, Task, Board, weekday, get_delta_date, Database, stores, duplicate_entry, other_error,
  or_date, or_zero, save_base, stage_active, save_task, clean, done_responsible, same_set,
  close_main, subtask_active, in_work, deactivate_main, check_main_task, check_row, check_subtasks,
  proceed,
}

-- The day after, or the Monday after a Friday or a Saturday, is never a Saturday or a Sunday.
pub get_delta_date-weekday : (today : ℕ) → weekday (get_delta_date today 1) < 5
unfolding get_delta_date
get_delta_date-weekday today = ground arith

-- The flag of every task is that of its stage.
unfoldable pub InSync : Table TaskStage → Table Task → Type 0
InSync stages tasks = AllRows (λ t. t.active ≡ stage_active t.stage stages) tasks

save_base-stored :
    (today : ℕ) (db : Database) (id : ℕ) (t : Task) (b b' : Board)
    → InSync b.stages b.tasks
    → t.active ≡ stage_active t.stage b.stages
    → save_base today db id t b ≡ some b'
    → InSync b'.stages b'.tasks
unfolding save_base InSync
save_base-stored today stores id t b b' s e h = subst (λ o. Good o) h good
  where
    Good : Option Board → Type 0
    Good none = Unit
    Good (some x) = AllRows (λ t. t.active ≡ stage_active t.stage x.stages) x.tasks

    good : Good (save_base today stores id t b)
    good = AllRows-put (λ t. t.active ≡ stage_active t.stage b.stages) id _ b.tasks e s
save_base-stored today duplicate_entry id t b b' s e h =
    subst
      (λ o. elim o [
        | none ↦ Unit
        | some x ↦ AllRows (λ t. t.active ≡ stage_active t.stage x.stages) x.tasks
      ])
      h s
save_base-stored today other_error id t b b' s e h = cc

-- Whatever is saved, and whatever the database answers, the flag of every task stays that of its stage.
pub save_task-InSync :
    (today : ℕ) (db : Database) (id : ℕ) (t : Task) (b b' : Board)
    → InSync b.stages b.tasks
    → save_task today db id t b ≡ some b'
    → InSync b'.stages b'.tasks
unfolding save_task
save_task-InSync today db id t b b' s h =
    save_base-stored today db id
      (record t { active = stage_active t.stage b.stages; lead_time = or_zero t.lead_time }) b b' s
      refl h

exists-put :
    (p : Task → Bool) (k : ℕ) (a : Task) (t : Table Task)
    → p a ≡ false
    → exists p t ≡ false
    → exists p (put k a t) ≡ false
exists-put p k a [] n h = ground (arith, n)
exists-put p k a ((j, x) ∷ t) n h = ground (arith, n, h, exists-put p k a t n)

no_active_subtask :
    (id : ℕ) (stages : Table TaskStage) (t : Table Task)
    → InSync stages t
    → subtask_active id t ≡ false
    → exists (λ u. opt_eq u.task (some id) && stage_active u.stage stages) t ≡ false
unfolding InSync
no_active_subtask id stages [] s h = refl
no_active_subtask id stages ((j, u) ∷ t) (e, s) h =
    ground (arith, sym e, no_active_subtask id stages t s)

-- The main task is in work, none of its subtasks is active, and its responsible users are those whose
-- subtasks are done.
abbrev pub is_over : ℕ → Task → Board → Bool
is_over id m b =
    in_work (get m.stage b.stages)
    && (not (subtask_active id b.tasks)
        && same_set m.responsible (done_responsible id b.stages b.tasks))

-- The main task after the automatic closing: it stands at the first stage that is done, with the flag
-- of that stage, it is closed today and valid, and no other row differs.
unfoldable pub Closed : ℕ → ℕ → Board → Board → Type 0
Closed today id b b' =
    (k : ℕ) × (st : TaskStage) × (m : Task) × (find (λ s. s.done) b.stages ≡ some (k, st))
    × (b' ≡ record b { tasks = put id m b.tasks })
    × (m.stage ≡ k)
    × (m.active ≡ stage_active k b.stages)
    × (m.closing_date ≡ some today)
    × (m.next_step_date ≡ some today)
    × (clean (some id) m b' ≡ true)

closed-clean :
    (id : ℕ) (m : Task) (b : Board)
    → InSync b.stages b.tasks
    → subtask_active id b.tasks ≡ false
    → clean (some id) m (record b { tasks = put id m b.tasks }) ≡ true
unfolding clean
closed-clean id m b s h = elim (Bool-cases (is_some m.task)) [
  | inl y ↦ ground (arith, y)
  | inr n ↦
      let other : exists (λ u. opt_eq u.task (some id) && stage_active u.stage b.stages)
            (put id m b.tasks)
          ≡ false =
        exists-put (λ u. opt_eq u.task (some id) && stage_active u.stage b.stages) id m b.tasks
          (not_own m.task n) (no_active_subtask id b.stages b.tasks s h) in
      ground (arith, other)
]
  where
    not_own :
        (o : Option ℕ)
        → is_some o ≡ false
        → (opt_eq o (some id) && stage_active m.stage b.stages) ≡ false
    not_own none q = refl
    not_own (some k) q = cc

-- What a save that closes the task does: the database may refuse the row as a double.
Saved : ℕ → Database → ℕ → Board → Board → Type 0
Saved today db id b b' = ((b' ≡ b) × (db ≡ duplicate_entry)) ⊎ Closed today id b b'

save_base-Saved :
    (today : ℕ) (db : Database) (id k : ℕ) (st : TaskStage) (m : Task) (b b' : Board)
    → InSync b.stages b.tasks
    → subtask_active id b.tasks ≡ false
    → find (λ s. s.done) b.stages ≡ some (k, st)
    → m.stage ≡ k
    → m.active ≡ stage_active k b.stages
    → m.closing_date ≡ some today
    → m.next_step_date ≡ some today
    → save_base today db id m b ≡ some b'
    → Saved today db id b b'
unfolding save_base Saved Closed
save_base-Saved today stores id k st m b b' s n f g a c d h =
    let m' : Task = record m {
      next_step_date = or_date (get_delta_date today 1) m.next_step_date;
    } in
    inr (
      subst (Closed today id b) (some-eq h) (
        k,
        st,
        m',
        f,
        refl,
        g,
        a,
        c,
        ap (or_date (get_delta_date today 1)) d,
        closed-clean id m' b s n,
      ))
save_base-Saved today duplicate_entry id k st m b b' s n f g a c d h = inl (sym (some-eq h), refl)
save_base-Saved today other_error id k st m b b' s n f g a c d h = cc

close_main-Saved :
    (today : ℕ) (db : Database) (id : ℕ) (m : Task) (b b' : Board) (o : Option (ℕ × TaskStage))
    → InSync b.stages b.tasks
    → subtask_active id b.tasks ≡ false
    → find (λ s. s.done) b.stages ≡ o
    → close_main today db id m b o ≡ some b'
    → Saved today db id b b'
unfolding close_main save_task
close_main-Saved today db id m b b' none s n f h = cc
close_main-Saved today db id m b b' (some (k, st)) s n f h =
    save_base-Saved today db id k st _ b b' s n f refl refl refl refl h

-- A task that is over is closed, unless the row is refused as a double; another one stays.
Checked : ℕ → Database → ℕ → Task → Board → Board → Type 0
Checked today db id m b b' =
    ((b' ≡ b) × (is_over id m b ≡ false)) ⊎ ((is_over id m b ≡ true) × Saved today db id b b')

deactivate_main-Checked :
    (today : ℕ) (db : Database) (id : ℕ) (m : Task) (b b' : Board)
    → InSync b.stages b.tasks
    → deactivate_main today db id m b (in_work (get m.stage b.stages)) ≡ some b'
    → Checked today db id m b b'
unfolding deactivate_main Checked
deactivate_main-Checked today db id m b b' s h =
    go (in_work (get m.stage b.stages)) (subtask_active id b.tasks)
      (same_set m.responsible (done_responsible id b.stages b.tasks)) refl refl refl
      (opened (in_work (get m.stage b.stages)) h)
  where
    opened :
        (w : Bool)
        → deactivate_main today db id m b w ≡ some b'
        → (if w
            then (if subtask_active id b.tasks
                then some b
                else if same_set m.responsible (done_responsible id b.stages b.tasks)
                then close_main today db id m b (find (λ s. s.done) b.stages)
                else some b)
            else some b)
          ≡ some b'
    opened true h = h
    opened false h = h

    go :
        (w x y : Bool)
        → in_work (get m.stage b.stages) ≡ w
        → subtask_active id b.tasks ≡ x
        → same_set m.responsible (done_responsible id b.stages b.tasks) ≡ y
        → (if w
            then (if x
                then some b
                else if y
                then close_main today db id m b (find (λ s. s.done) b.stages)
                else some b)
            else some b)
          ≡ some b'
        → Checked today db id m b b'
    go false x y e n f q = inl (sym (some-eq q), rw e refl)
    go true true y e n f q = inl (sym (some-eq q), rw (e, n) refl)
    go true false false e n f q = inl (sym (some-eq q), rw (e, n, f) refl)
    go true false true e n f q =
        inr (rw (e, n, f) refl, close_main-Saved today db id m b b' _ s n refl q)

-- Where the flags agree with the stages and the check of a main task raises nothing, it changes
-- nothing if the task is not over. One that is over it closes today, at the stage that is done, so
-- that it passes the validation of a task closed by hand, and changes no other row; but nothing if
-- the database refuses the row as a double.
pub check_main_task-Closed :
    (today : ℕ) (db : Database) (id : ℕ) (b b' : Board)
    → InSync b.stages b.tasks
    → check_main_task today db id b ≡ some b'
    → (m : Task) × (get id b.tasks ≡ some m)
      × (((b' ≡ b) × (is_over id m b ≡ false))
          ⊎ ((is_over id m b ≡ true)
              × (((b' ≡ b) × (db ≡ duplicate_entry)) ⊎ Closed today id b b')))
unfolding check_main_task check_row Checked Saved
check_main_task-Closed today db id b b' s h = from (get id b.tasks) refl h
  where
    from :
        (o : Option Task)
        → get id b.tasks ≡ o
        → check_row today db id b o ≡ some b'
        → (m : Task) × (get id b.tasks ≡ some m) × Checked today db id m b b'
    from none e q = cc
    from (some m) e q = (m, e, deactivate_main-Checked today db id m b b' s q)

exists-put_stored :
    (p : Task → Bool) (k : ℕ) (a : Task) (t : Table Task) → p a ≡ true → exists p (put k a t) ≡ true
exists-put_stored p k a [] y = ground (arith, y)
exists-put_stored p k a ((j, x) ∷ t) y = ground (arith, y, exists-put_stored p k a t y)

opt_eq_same : (o : Option ℕ) (id : ℕ) → o ≡ some id → opt_eq o (some id) ≡ true
opt_eq_same none id h = cc
opt_eq_same (some j) id h = ground (arith, h)

-- After a user's subtask of a task is stored, open or closed, that hides the main task,
-- `check_subtasks` does not let the user complete another subtask of it.
pub check_subtasks_once :
    (id user k : ℕ) (u : Task) (b : Board)
    → u.task ≡ some id
    → elem user u.responsible ≡ true
    → u.hide_main_task ≡ true
    → check_subtasks id (some user) (record b { tasks = put k u b.tasks }) ≢ proceed
unfolding check_subtasks
check_subtasks_once id user k u b m r h = elim (Bool-cases (stage_active u.stage b.stages)) [
  | inl y ↦
      let found =
        exists-put_stored
          (λ v.
            (opt_eq v.task (some id) && elem user v.responsible) && stage_active v.stage b.stages)
          k u b.tasks (ground (arith, opt_eq_same u.task id m, r, y)) in
      ground (arith, found)
  | inr n ↦
      let found =
        exists-put_stored
          (λ v.
            (opt_eq v.task (some id) && elem user v.responsible)
            && (not (stage_active v.stage b.stages) && v.hide_main_task))
          k u b.tasks (ground (arith, opt_eq_same u.task id m, r, n, h)) in
      ground (arith, found)
]
