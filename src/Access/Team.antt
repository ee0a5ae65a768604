-- ===== src/Access/Team.antt =====
-- The actions of the resource team (`AccessRequestViewSet` in resource_management/views.py):
-- `approve`, `reject` and `request_approval`. `strip` is Python's, `is_email` stands for Django's
-- `validate_email`, and `delivered` for the answer of the mail to the approver.
pub mod Laws
use optima_management.Base.{
  ℕ, String, Bool, true, false, not, ◌&&◌, ◌||◌, Option, none, some, List, [], ◌∷◌, ◌==◌, truthy,
  get_or, if◌then◌else◌,
}
use optima_management.Base.Int.{ℤ, ◌+ℤ◌}
use optima_management.Base.Table.{get}
use optima_management.Access.Types.{
  Status, approval_required, approved, rejected, AccessRequest, HistoryAction, was_approved,
  was_rejected, approval_requested, Db, Env, Result, ok, raised, Error,
}
use optima_management.Access.Save.{days, save}

-- What the view reads of `request.user`.
pub record User : Type 0 where
  pub id : ℕ
  pub is_staff : Bool
  pub in_resource_team : Bool

-- The HTTP answers; `server_error` is an exception that no handler catches, or the 500 answer.
pub data Response : Type 0 where
  missing unauthorized email_required email_invalid server_error email_failed : Response
  done : Response

-- `get_queryset`: the staff and the team see all requests, the others their own.
unfoldable pub visible : User → AccessRequest → Bool
visible u r = u.is_staff || u.in_resource_team || r.user == u.id

module _ (process_content_images strip_tags : String → String) where
  unfoldable pub record_action :
      ℕ → ℕ → HistoryAction → Response → Result (Unit {0}) × Db → Response × Db
  record_action id by h answer (raised e, db) = (server_error, db)
  record_action id by h answer (ok u, db) = (
    answer,
    record db {
      history = record { access_request = id; action = h; performed_by = some by } ∷ db.history;
    },
  )

  -- `get_object()` and the test of the group, in front of an action on the row.
  unfoldable pub guarded :
      User → Db → Option AccessRequest → (AccessRequest → Response × Db) → Response × Db
  unfolding visible
  guarded u db none act = (missing, db)
  guarded u db (some r) act =
      if not (visible u r)
      then (missing, db)
      else if not u.in_resource_team
      then (unauthorized, db)
      else act r

  unfoldable pub approve_row : Env → User → ℕ → Db → AccessRequest → Response × Db
  unfolding record_action
  approve_row env u id db r = record_action id u.id was_approved done (
      save process_content_images strip_tags env id
        (record r { status = approved; approved_by = some u.id; approved_at = some env.now }) db)

  unfoldable pub approve : Env → User → ℕ → Db → Response × Db
  unfolding guarded approve_row
  approve env u id db = guarded u db (get id db.requests) (approve_row env u id db)

  unfoldable pub reject : Env → User → ℕ → Db → Response × Db
  unfolding guarded record_action
  reject env u id db = guarded u db (get id db.requests) λ r.
      record_action id u.id was_rejected done
        (save process_content_images strip_tags env id (record r { status = rejected }) db)

  module _ (strip : String → String) (is_email : String → Bool) (delivered : Bool) where
    unfoldable pub ask_approver : Env → User → ℕ → String → Db → AccessRequest → Response × Db
    unfolding record_action
    ask_approver env u id email db r =
        if not (truthy email)
        then (email_required, db)
        else if not (is_email email)
        then (email_invalid, db)
        else record_action id u.id approval_requested (if delivered then done else email_failed) (
            save process_content_images strip_tags env id
              (record r {
                status = approval_required;
                approver_email = some email;
                approval_token = some env.uuid;
                approval_token_expiry = some (env.now +ℤ days 1);
              })
              db)

    unfoldable pub request_approval : Env → User → ℕ → Option String → Db → Response × Db
    unfolding guarded ask_approver
    request_approval env u id email db =
        guarded u db (get id db.requests) (ask_approver env u id (strip (get_or "" email)) db)
