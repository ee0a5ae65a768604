-- ===== src/Tasks.antt =====
-- Tasks and their subtasks (tasks/models/taskbase.py, tasks/models/task.py), the date of the next
-- step (common/utils/helpers.py) and the guard before a subtask is completed
-- (tasks/views/create_completed_subtask.py). A date is its ordinal, users are their keys; texts,
-- tags, files, subscribers and the notified users are left out.
pub mod Closing
pub mod Memos
use optima_management.Base.{
  ℕ, ◌+◌, ◌-◌, ◌%◌, Bool, true, false, not, ◌&&◌, ◌||◌, Option, none, some, List, [], ◌∷◌, ◌++◌,
  ◌==◌, ltb, opt_eq, is_some, if◌then◌else◌,
}
use optima_management.Base.Lists.{all, elem}
use optima_management.Base.Table.{Table, get, put, find, exists}

pub data Priority : Type 0 where
  low : Priority
  middle : Priority
  high : Priority

pub record TaskStage : Type 0 where
  pub default : Bool
  pub done : Bool
  pub in_progress : Bool
  pub active : Bool

-- `task` is the main task of a subtask, `stage` the key of the stage.
pub record Task : Type 0 where
  pub priority : Priority
  pub task : Option ℕ
  pub project : Option ℕ
  pub stage : ℕ
  pub hide_main_task : Bool
  pub lead_time : Option ℕ
  pub due_date : Option ℕ
  pub start_date : Option ℕ
  pub closing_date : Option ℕ
  pub next_step_date : Option ℕ
  pub responsible : List ℕ
  pub co_owner : Option ℕ
  pub active : Bool
  pub remind_me : Bool

-- The stages stand in the order of their index numbers.
pub record Board : Type 0 where
  pub tasks : Table Task
  pub stages : Table TaskStage

-- Python's `weekday()` of a date by its ordinal: ordinal 1 is a Monday, which is 0.
abbrev pub weekday : ℕ → ℕ
weekday d = (d + 6) % 7

unfoldable pub get_delta_date : ℕ → ℕ → ℕ
get_delta_date today delta =
    let n = weekday today in if n == 4 || n == 5 then today + (delta + 6 - n) else today + delta

-- What the database does with a row: a duplicate of a unique column is one integrity error of two.
pub data Database : Type 0 where
  stores : Database
  duplicate_entry : Database
  other_error : Database

abbrev pub or_date : ℕ → Option ℕ → Option ℕ
or_date d none = some d
or_date d (some x) = some x

abbrev pub or_zero : Option ℕ → Option ℕ
or_zero none = some 0
or_zero (some x) = some x

-- `TaskBase.save`: the error of a duplicate is swallowed, any other is raised again (`none`).
unfoldable pub save_base : ℕ → Database → ℕ → Task → Board → Option Board
unfolding get_delta_date
save_base today stores id t b = some (record b {
  tasks =
      put id (record t { next_step_date = or_date (get_delta_date today 1) t.next_step_date })
        b.tasks;
})
save_base today duplicate_entry id t b = some b
save_base today other_error id t b = none

abbrev pub stage_active : ℕ → Table TaskStage → Bool
stage_active k stages = elim (get k stages) [ some s ↦ s.active | none ↦ false ]

-- `Task.save`
unfoldable pub save_task : ℕ → Database → ℕ → Task → Board → Option Board
unfolding save_base
save_task today db id t b =
    save_base today db id
      (record t { active = stage_active t.stage b.stages; lead_time = or_zero t.lead_time }) b

-- `Task.clean`, true where it raises nothing; the key is `none` before the first save.
unfoldable pub clean : Option ℕ → Task → Board → Bool
clean none t b = true
clean (some id) t b =
    if is_some t.task || stage_active t.stage b.stages
    then true
    else not (exists (λ u. opt_eq u.task (some id) && stage_active u.stage b.stages) b.tasks)

-- The users that a closed and done subtask of the task names.
unfoldable pub done_responsible : ℕ → Table TaskStage → Table Task → List ℕ
done_responsible id stages [] = []
done_responsible id stages ((k, u) ∷ t) =
    let rest = done_responsible id stages t in
    if opt_eq u.task (some id) && stage_done u.stage && not u.active
    then u.responsible ++ rest
    else rest
  where
    stage_done : ℕ → Bool
    stage_done j = elim (get j stages) [ some s ↦ s.done | none ↦ false ]

-- Equality of the sets of two lists.
abbrev pub same_set : List ℕ → List ℕ → Bool
same_set xs ys = all (λ x. elem x ys) xs && all (λ y. elem y xs) ys

-- No done stage: the task has no stage, which the database refuses.
unfoldable pub close_main : ℕ → Database → ℕ → Task → Board → Option (ℕ × TaskStage) → Option Board
unfolding save_task
close_main today db id m b none = none
close_main today db id m b (some (k, st)) =
    save_task today db id
      (record m { stage = k; next_step_date = some today; closing_date = some today }) b

abbrev pub subtask_active : ℕ → Table Task → Bool
subtask_active id tasks = exists (λ u. opt_eq u.task (some id) && u.active) tasks

unfoldable pub deactivate_main : ℕ → Database → ℕ → Task → Board → Bool → Option Board
unfolding close_main done_responsible
deactivate_main today db id m b false = some b
deactivate_main today db id m b true =
    if subtask_active id b.tasks
    then some b
    else if same_set m.responsible (done_responsible id b.stages b.tasks)
    then close_main today db id m b (find (λ s. s.done) b.stages)
    else some b

-- The main task is at its first stage or in progress.
abbrev pub in_work : Option TaskStage → Bool
in_work none = false
in_work (some st) = st.default || st.in_progress

unfoldable pub check_row : ℕ → Database → ℕ → Board → Option Task → Option Board
unfolding deactivate_main
check_row today db id b none = none
check_row today db id b (some m) = deactivate_main today db id m b (in_work (get m.stage b.stages))

-- `check_and_deacte_main_task` of a subtask of the task `id`; `none` is an exception.
unfoldable pub check_main_task : ℕ → Database → ℕ → Board → Option Board
unfolding check_row
check_main_task today db id b = check_row today db id b (get id b.tasks)

-- Where `check_subtasks` sends the request: on, to the list of tasks, or to the user's subtasks.
pub data Redirect : Type 0 where
  proceed : Redirect
  to_tasks : Redirect
  to_subtasks : Redirect

-- `user` is `none` if nobody is logged in.
unfoldable pub check_subtasks : ℕ → Option ℕ → Board → Redirect
check_subtasks id none b = proceed
check_subtasks id (some user) b =
    if exists (λ u. mine u && stage_active u.stage b.stages) b.tasks
    then to_subtasks
    else if exists (λ u. mine u && not (stage_active u.stage b.stages) && u.hide_main_task) b.tasks
    then to_tasks
    else proceed
  where
    mine : Task → Bool
    mine u = opt_eq u.task (some id) && elem user u.responsible
