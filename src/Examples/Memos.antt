-- ===== src/Examples/Memos.antt =====
-- Examples for the office memos (tasks).
use optima_management.Base.{◌≡◌, true, false, not, ◌&&◌, ◌||◌, ◌==◌, none, List, [], ◌∷◌}
use optima_management.Base.Lists.{elem}
use optima_management.Tasks.Memos
use optima_management.Tasks.Memos.{Memo, Form, is_listed, has_view_permission, has_office}
use optima_management.Tasks.Memos.Notified.{Save, Records, save_all, save_all-Records}
use optima_management.Tasks.Memos.Access.{is_listed-has_view_permission}

abbrev memo : Memo
memo = record {
  owner = 1;
  to = 2;
  deal = none;
  draft = true;
  notified = false;
  review_date = none;
  stage = Memos.pending;
  subscribers = 3 ∷ [];
  notified_subscribers = [];
}

-- The draft is given up, twice.
abbrev published : Form
published = record {
  to = 2;
  deal = none;
  draft = false;
  review_date = none;
  stage = Memos.pending;
  subscribers = 3 ∷ [];
  stage_changed = false;
  draft_changed = true;
  subscribers_changed = false;
  create_task = false;
}

abbrev saves : List Save
saves =
    record { day = 10; user = 1; change = true; form = published }
    ∷ record { day = 11; user = 1; change = true; form = published }
    ∷ []

told_example : Records 3 memo (save_all (λ u. true) saves memo)
told_example = save_all-Records (λ u. true) 3 saves memo

abbrev reader : Memos.User
reader = record { id = 3; is_superuser = false; is_chief = false; is_task_operator = false }

listed_example :
    (is_listed reader memo ≡ (
      has_view_permission true reader memo
      || ((memo.draft && reader.is_superuser)
          || (elem reader.id memo.subscribers
              && not (reader.is_chief || reader.is_task_operator)))))
    × (has_view_permission true reader memo ≡ (
        memo.owner == reader.id || (not memo.draft && (memo.to == reader.id || has_office reader))))
listed_example = is_listed-has_view_permission reader memo
