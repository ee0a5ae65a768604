-- ===== src/Tasks/Memos/Access.antt =====
-- Who sees a memo (tasks/site/memoadmin.py).
use optima_management.Base.{◌≡◌, true, not, ◌&&◌, ◌||◌, ◌==◌, arith}
use optima_management.Base.Lists.{elem}
use optima_management.Tasks.Memos.{User, Memo, is_listed, has_view_permission, has_office}

-- With the permission of the model, a memo is listed for exactly those whom `has_view_permission`
-- lets pass, for a superuser if it is a draft, and for its subscribers who are no chief and no task
-- operator; and `has_view_permission` lets the owner pass, and of a memo that is no draft the
-- recipient and those who hold an office. Django opens a memo also by the permission to change it,
-- which is not meant here.
pub is_listed-has_view_permission :
    (u : User) (m : Memo)
    → (is_listed u m ≡ (
        has_view_permission true u m
        || ((m.draft && u.is_superuser)
            || (elem u.id m.subscribers && not (u.is_chief || u.is_task_operator)))))
      × (has_view_permission true u m
          ≡ (m.owner == u.id || (not m.draft && (m.to == u.id || has_office u))))
unfolding has_view_permission is_listed
is_listed-has_view_permission u m = (ground arith, ground arith)
