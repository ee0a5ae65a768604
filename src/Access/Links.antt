-- ===== src/Access/Links.antt =====
-- The links in the approval mails (resource_management/views.py): `approval_confirmation`,
-- `handle_approval` and `handle_resource_owner_approval`. The mails that the handlers send after the
-- row is saved change no modelled row and are left out.
pub mod Laws
pub mod Use
use optima_management.Base.{
  ℕ, String, Bool, true, false, not, ◌&&◌, Option, none, some, List, [], ◌∷◌, ◌++◌, str_eq,
  if◌then◌else◌,
}
use optima_management.Base.Int.{ℤ, ltb_ℤ}
use optima_management.Base.Table.{get}
use optima_management.Access.Types.{
  Status, pending, approval_required, approver_approved, approver_rejected, approved, rejected,
  AccessRequest, HistoryAction, was_approved, was_rejected, Db, Env, Result, ok, raised,
}
use optima_management.Access.Save.{save}

-- The last part of the link's address: 'approve', 'reject', or any other text.
pub data LinkAction : Type 0 where
  approve reject other : LinkAction

-- What the visitor is shown.
pub data Page : Type 0 where
  already_processed invalid_link link_expired invalid_action error_processing : Page
  confirmation : Page
  processed : LinkAction → Page

-- `status in ['PENDING', 'APPROVAL_REQUIRED']`
abbrev pub awaits_approver : Status → Bool
awaits_approver pending = true
awaits_approver approval_required = true
awaits_approver _ = false

-- `status in ['APPROVER_APPROVED', 'APPROVER_REJECTED']`
abbrev pub awaits_owner : Status → Bool
awaits_owner approver_approved = true
awaits_owner approver_rejected = true
awaits_owner _ = false

-- `access_request.approval_token == token`; a null token equals no text.
abbrev pub token_matches : Option String → String → Bool
token_matches none token = false
token_matches (some s) token = str_eq s token

-- `approval_token_expiry and approval_token_expiry < timezone.now()`
abbrev pub is_expired : Option ℤ → ℤ → Bool
is_expired none now = false
is_expired (some e) now = ltb_ℤ e now

-- The three early returns; `none` lets the request through.
unfoldable pub refuse : (Status → Bool) → ℤ → String → AccessRequest → Option Page
refuse awaits now token r =
    if not (awaits r.status)
    then some already_processed
    else if not (token_matches r.approval_token token)
    then some invalid_link
    else if is_expired r.approval_token_expiry now
    then some link_expired
    else none

-- The new row and the action that the history names; `approver` is what an approval writes to
-- `approved_by`.
unfoldable pub decide :
    Option ℕ → ℤ → LinkAction → AccessRequest → Option (AccessRequest × HistoryAction)
decide approver now approve r = some (
  record r {
    status = approved;
    approved_by = approver;
    approved_at = some now;
    approval_token = none;
    approval_token_expiry = none;
  },
  was_approved,
)
decide approver now reject r = some (
  record r { status = rejected; approval_token = none; approval_token_expiry = none },
  was_rejected,
)
decide approver now other r = none

module _ (process_content_images strip_tags : String → String) where
  -- `save()` and the history entry; an exception is caught and shown. A mail that raises behind them,
  -- which shows the error page for a stored decision, is left out.
  unfoldable pub record_decision :
      ℕ → HistoryAction → LinkAction → Result (Unit {0}) × Db → Page × Db
  record_decision id h action (raised e, db) = (error_processing, db)
  record_decision id h action (ok u, db) = (
    processed action,
    record db {
      history = record { access_request = id; action = h; performed_by = none } ∷ db.history;
    },
  )

  unfoldable pub perform :
      Env → ℕ → LinkAction → Db → Option (AccessRequest × HistoryAction) → Page × Db
  unfolding record_decision
  perform env id action db none = (invalid_action, db)
  perform env id action db (some (r, h)) =
      record_decision id h action (save process_content_images strip_tags env id r db)

  unfoldable pub answer :
      Env → ℕ → LinkAction → Db → Option Page → Option (AccessRequest × HistoryAction) → Page × Db
  unfolding perform
  answer env id action db (some page) decision = (page, db)
  answer env id action db none decision = perform env id action db decision

  unfoldable pub approval_on : Env → ℕ → String → LinkAction → Db → Option AccessRequest → Page × Db
  unfolding answer refuse decide
  approval_on env id token action db none = (error_processing, db)
  approval_on env id token action db (some r) =
      answer env id action db (refuse awaits_approver env.now token r)
        (decide r.approved_by env.now action r)

  -- `handle_approval`
  unfoldable pub handle_approval : Env → ℕ → String → LinkAction → Db → Page × Db
  unfolding approval_on
  handle_approval env id token action db = approval_on env id token action db (get id db.requests)

  unfoldable pub owner_approval_on :
      Env → ℕ → String → LinkAction → Db → Option AccessRequest → Page × Db
  unfolding answer refuse decide
  owner_approval_on env id token action db none = (error_processing, db)
  owner_approval_on env id token action db (some r) =
      answer env id action db (refuse awaits_owner env.now token r) (decide none env.now action r)

  -- `handle_resource_owner_approval`
  unfoldable pub handle_resource_owner_approval : Env → ℕ → String → LinkAction → Db → Page × Db
  unfolding owner_approval_on
  handle_resource_owner_approval env id token action db =
      owner_approval_on env id token action db (get id db.requests)

abbrev page_or_form : Option Page → Page
page_or_form none = confirmation
page_or_form (some page) = page

unfoldable pub confirm : ℤ → String → Option AccessRequest → Option Page
unfolding refuse
confirm now token none = none
confirm now token (some r) = some (page_or_form (refuse awaits_approver now token r))

-- `approval_confirmation`; it changes no row. `none` is the 404 page.
unfoldable pub approval_confirmation : Env → ℕ → String → Db → Option Page
unfolding confirm
approval_confirmation env id token db = confirm env.now token (get id db.requests)
