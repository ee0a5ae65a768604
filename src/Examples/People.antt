-- ===== src/Examples/People.antt =====
-- Examples for the employees (onboarding) and the tasks.
use optima_management.Base.{◌≡◌, ◌≢◌, ◌⊎◌, refl, String, true, false, none, some, [], ◌∷◌, str_eq}
use optima_management.Base.Table.{Table, get}
use optima_management.Onboarding.{Document, Employee, User, Staff, sync_user_account}
use optima_management.Onboarding.Validation.{clean, valid, clean-sync_user_account}
use optima_management.Onboarding.Life.{done, restore_employee}
use optima_management.Onboarding.Life.Restored.{IsActive, HasAccess, restore_employee-IsActive}
use optima_management.Onboarding.Offboard.{find_employee, offboard, DeletedIn, offboard-Ended}
use optima_management.Tasks.{
  TaskStage, Task, Priority, Board, stores, duplicate_entry, save_task, check_main_task,
}
use optima_management.Tasks.Closing.{InSync, is_over, Closed, check_main_task-Closed}

abbrev no_document : Document
no_document = record { collected = false; file = "" }

abbrev kept : String → String
kept s = s

abbrev anna : Employee
anna = record {
  first_name = "Anna";
  last_name = "Rao";
  email = "anna@home";
  company_email = some "anna@firm";
  employee_type = some "full";
  department = some "it";
  employee_id = some "E1";
  position = some "dev";
  is_deleted = false;
  deleted_at = none;
  is_self_submitted = false;
  it_notification_sent = false;
  aadhar_pan = no_document;
  educational_certificates = no_document;
  bank_statements = no_document;
  previous_offer_letter = no_document;
  payslips = no_document;
  relieving_experience_letters = no_document;
  appraisal_hike_letters = no_document;
}

abbrev account : User
account = record {
  username = "E1";
  email = "anna@firm";
  first_name = "Anna";
  last_name = "Rao";
  is_active = true;
}

abbrev staff : Staff
staff = record {
  employees = (1, anna) ∷ [];
  users = (5, account) ∷ [];
  supporters = record { email = "it@firm"; is_active = true } ∷ [];
  outbox = [];
}

anna_valid : clean kept str_eq (some 1) anna staff ≡ valid anna
unfolding clean
anna_valid = refl

sync_example : sync_user_account kept 6 anna staff.users ≢ none
sync_example =
    clean-sync_user_account kept str_eq (λ a b h. h) (λ s. refl) 6 (some 1) anna anna staff
      anna_valid

anna_found : find_employee "anna@firm" staff.employees ≡ some (1, anna)
unfolding find_employee
anna_found = refl

offboard_example :
    let x = offboard kept 700 6 true true 5 account staff in
    let e' = record anna { is_deleted = true; deleted_at = some 700 } in
    ((sync_user_account kept 6 e' staff.users ≡ none) × (x ≡ (false, staff)))
    ⊎ ((us : Table User) × (sync_user_account kept 6 e' staff.users ≡ some us)
        × (x.0 ≡ true)
        × DeletedIn kept 1 700 x.1.employees
        × (get 5 x.1.users ≡ some (record account { is_active = false })))
offboard_example = offboard-Ended kept 700 6 true 5 account staff 1 anna anna_found

abbrev begun : TaskStage
begun = record { default = true; done = false; in_progress = false; active = true }

abbrev finished : TaskStage
finished = record { default = false; done = true; in_progress = false; active = false }

abbrev main_task : Task
main_task = record {
  priority = Priority.middle;
  task = none;
  project = none;
  stage = 1;
  hide_main_task = false;
  lead_time = some 0;
  due_date = none;
  start_date = none;
  closing_date = none;
  next_step_date = some 10;
  responsible = 3 ∷ [];
  co_owner = none;
  active = true;
  remind_me = false;
}

abbrev subtask : Task
subtask = record main_task { task = some 1; stage = 2; hide_main_task = true; active = false }

abbrev board : Board
board = record {
  tasks = (1, main_task) ∷ (2, subtask) ∷ [];
  stages = (1, begun) ∷ (2, finished) ∷ [];
}

board-InSync : InSync board.stages board.tasks
unfolding InSync
board-InSync = (refl, (refl, tt))

abbrev after_close : Board
after_close = record board {
  tasks =
      (
        1,
        record main_task {
          stage = 2;
          next_step_date = some 20;
          closing_date = some 20;
          active = false;
        },
      )
      ∷ (2, subtask)
      ∷ [];
}

closes : check_main_task 20 stores 1 board ≡ some after_close
unfolding check_main_task
closes = refl

main_task_example :
    (m : Task) × (get 1 board.tasks ≡ some m)
    × (((after_close ≡ board) × (is_over 1 m board ≡ false))
        ⊎ ((is_over 1 m board ≡ true)
            × (((after_close ≡ board) × (stores ≡ duplicate_entry))
                ⊎ Closed 20 1 board after_close)))
main_task_example = check_main_task-Closed 20 stores 1 board after_close board-InSync closes

saves_subtask : save_task 20 stores 2 subtask board ≡ some board
unfolding save_task
saves_subtask = refl

-- The staff with an employee who has left.
abbrev left_staff : Staff
left_staff = record staff {
  employees = (1, record anna { is_deleted = true; deleted_at = some 700 }) ∷ [];
}

came_back : (restore_employee kept 6 8 true 1 left_staff).0 ≡ done
unfolding restore_employee
came_back = refl

return_example :
    let s' = (restore_employee kept 6 8 true 1 left_staff).1 in
    IsActive 1 s'.employees
    × HasAccess (record anna { is_deleted = true; deleted_at = some 700 }) s'.users
return_example =
    restore_employee-IsActive kept 6 8 true 1
      (record anna { is_deleted = true; deleted_at = some 700 }) left_staff refl came_back
