-- ===== src/Access/Admin.antt =====
-- `AccessRequestAdmin` (resource_management/admin.py): who sees, changes and deletes a request, and
-- the save of a changed one. An exception undoes what the admin has written. The mails change no
-- modelled row and are left out.
pub mod Reopened
use optima_management.Base.{
  ℕ, String, Bool, true, false, not, ◌&&◌, ◌||◌, Option, none, some, List, [], ◌∷◌, ◌++◌, ◌==◌,
  str_eq, truthy, opt_eq, is_some, get_or, if◌then◌else◌,
}
use optima_management.Base.Int.{ℤ, ◌+ℤ◌}
use optima_management.Base.Lists.{any, filter}
use optima_management.Base.Table.{Table, get}
use optima_management.Access.Types.{
  Status, pending, approval_required, approver_approved, approver_rejected, approved, rejected,
  revoked, AccessRequest, HistoryAction, approval_requested, approval_resent, ticket_assigned,
  was_deleted, status_changed, AccessHistory, Db, Env, Result, ok, raised,
}
use optima_management.Access.Save.{days, is_approval_required, has_token, save}

-- What the admin reads of `request.user`, and of a resource.
pub record User : Type 0 where
  pub id : ℕ
  pub is_superuser : Bool
  pub email : String

pub record Resource : Type 0 where
  pub id : ℕ
  pub resource_team_email : String

abbrev pub is_pending : Status → Bool
is_pending pending = true
is_pending _ = false

-- The number of a status among the choices.
abbrev pub status_number : Status → ℕ
status_number pending = 0
status_number approval_required = 1
status_number approver_approved = 2
status_number approver_rejected = 3
status_number approved = 4
status_number rejected = 5
status_number revoked = 6

abbrev pub same_email : Option String → Option String → Bool
same_email none none = true
same_email (some s) (some t) = str_eq s t
same_email _ _ = false

module _ (resources : List Resource) (u : User) where
  -- `request.user.email in Resource.objects.values_list('resource_team_email', flat=True)`
  unfoldable pub in_some_team : Bool
  in_some_team = any (λ (t : Resource). str_eq u.email t.resource_team_email) resources

  -- `obj.resource.resource_team_email == request.user.email`
  unfoldable pub is_resource_team : AccessRequest → Bool
  is_resource_team r =
      any (λ (t : Resource). opt_eq r.resource (some t.id) && str_eq t.resource_team_email u.email)
        resources

  abbrev pub is_own : AccessRequest → Bool
  is_own r = r.user == u.id

  abbrev pub is_assignee : AccessRequest → Bool
  is_assignee r = opt_eq r.assigned_to (some u.id)

  unfoldable pub has_delete_permission : AccessRequest → Bool
  unfolding in_some_team is_resource_team
  has_delete_permission r =
      u.is_superuser
      || ((in_some_team && is_resource_team r)
          || ((is_own r && is_pending r.status) || is_assignee r))

  -- `has_change_permission` for an object; `default` is that of the model.
  unfoldable pub has_change_permission : Bool → AccessRequest → Bool
  unfolding in_some_team
  has_change_permission default r =
      if is_some r.assigned_to && not (is_assignee r) && (not u.is_superuser && not in_some_team)
      then false
      else if not u.is_superuser && not in_some_team
      then is_own r || is_assignee r
      else default

  -- `get_queryset`, for one request.
  unfoldable pub is_listed : AccessRequest → Bool
  unfolding in_some_team is_resource_team
  is_listed r =
      if not u.is_superuser && not in_some_team
      then is_own r || is_assignee r
      else if not u.is_superuser
      then is_resource_team r
      else true

  -- `approver_changed`, for the row `old` and the form's `r`.
  unfoldable pub approver_changed : AccessRequest → AccessRequest → Bool
  approver_changed old r =
      truthy (get_or "" r.approver_email)
      && (not (same_email old.approver_email r.approver_email)
          || ((not (is_approval_required old.status) && is_approval_required r.status)
              || ((is_approval_required r.status && not (has_token r.approval_token))
                  || (is_approval_required old.status && is_approval_required r.status))))

  abbrev pub is_privileged : Bool
  is_privileged = u.is_superuser || in_some_team

  -- `AccessHistory.objects.create`
  unfoldable pub log : ℕ → HistoryAction → Db → Db
  log k h db = record db {
    history = record { access_request = k; action = h; performed_by = some u.id } ∷ db.history;
  }

  -- A new token for the approver, and the entry that names why.
  unfoldable pub ask_approver : Env → AccessRequest → AccessRequest
  ask_approver env r = record r {
    status = approval_required;
    approval_token = some env.uuid;
    approval_token_expiry = some (env.now +ℤ days 15);
  }

  abbrev pub asked : Bool → HistoryAction
  asked true = approval_requested
  asked false = approval_resent

  -- `delete_model`: the entries of a request go with it.
  unfoldable pub remove_row : ℕ → Table AccessRequest → Table AccessRequest
  remove_row k t = filter (λ r. not (r.0 == k)) t

  unfoldable pub delete_row : ℕ → Db → Db
  unfolding remove_row
  delete_row k db = record db {
    requests = remove_row k db.requests;
    history = filter (λ (h : AccessHistory). not (h.access_request == k)) db.history;
  }

  unfoldable pub delete_model : ℕ → AccessRequest → Db → Db
  unfolding has_delete_permission log delete_row
  delete_model k r db = if has_delete_permission r then delete_row k (log k was_deleted db) else db

  unfoldable pub log_change :
      ℕ → Status → Status → Db → Result (Unit {0}) × Db → Result (Unit {0}) × Db
  unfolding log
  log_change k old now db (raised e, saved) = (raised e, db)
  log_change k old now db (ok x, saved) = (
    ok x,
    if status_number old == status_number now then saved else log k (status_changed old now) saved,
  )

  module _ (process_content_images strip_tags : String → String) where
    -- `save_model` behind the test of the assignment: `r` is the row to save, `before` the tables with
    -- the entries that were written already, which an exception undoes.
    unfoldable pub save_logged : Env → ℕ → Status → AccessRequest → Db → Db → Result (Unit {0}) × Db
    unfolding log_change
    save_logged env k old r before db =
        log_change k old r.status db (save process_content_images strip_tags env k r before)

    unfoldable pub save_assigned :
        Env → ℕ → AccessRequest → AccessRequest → Db → Db → Result (Unit {0}) × Db
    unfolding approver_changed ask_approver save_logged log
    save_assigned env k old r before db =
        if approver_changed old r
        then save_logged env k old.status (ask_approver env r)
            (log k (asked (not (same_email old.approver_email r.approver_email))) before) db
        else save_logged env k old.status r before db

    -- `save_model` for a stored request: `old` is the row and `r` what the form makes of it. Without
    -- the right to assign, an assignment of another user saves nothing.
    unfoldable pub save_change :
        Env → ℕ → AccessRequest → AccessRequest → Db → Result (Unit {0}) × Db
    unfolding save_assigned log in_some_team
    save_change env k old r db =
        if opt_eq old.assigned_to r.assigned_to
        then save_assigned env k old r db db
        else if is_privileged
        then save_assigned env k old r (log k ticket_assigned db) db
        else (ok tt, db)
