-- ===== src/ResourceRequests/Approval.antt =====
-- The link of the PMO (`handle_pmo_approval`, resource_requests/views.py), and the helper
-- `approve_pmo_request` (resource_requests/signals.py), which nothing calls.
pub mod Numbers
pub mod Sound
pub mod Reach
pub mod Links
pub mod Outcomes
use optima_management.Base.{
  ℕ, ◌+◌, String, Bool, true, false, not, ◌&&◌, ◌||◌, Option, none, some, List, [], ◌∷◌, ◌++◌, ltb,
  leb, ◌==◌, str_eq, truthy, if◌then◌else◌,
}
use optima_management.Base.Decimal.{show}
use optima_management.Base.Lists.{same_text, any, length}
use optima_management.Base.Table.{get, put}
use optima_management.ResourceRequests.Types.{
  ResourceRequest, Status, pending, approved, rejected, DeliveryRequest, PmoRequest, Db, Env,
  Settings, Mail, status_changed, team_details,
}

-- What the visitor is shown.
pub data Page : Type 0 where
  already_processed invalid_link link_expired invalid_action server_error : Page
  done : Status → Page

-- `status not in ['PENDING']`
abbrev pub is_pending : Status → Bool
is_pending pending = true
is_pending _ = false

-- `approval_token == token`; a null token equals no text.
abbrev pub token_matches : Option String → String → Bool
token_matches none token = false
token_matches (some s) token = str_eq s token

-- `approval_token_expiry and approval_token_expiry < timezone.now()`
abbrev pub is_expired : Option ℕ → ℕ → Bool
is_expired none now = false
is_expired (some e) now = ltb e now

-- The three early returns; `none` lets the request through.
unfoldable pub refuse : ℕ → String → DeliveryRequest → Option Page
refuse now token d =
    if not (is_pending d.status)
    then some already_processed
    else if not (token_matches d.approval_token token)
    then some invalid_link
    else if is_expired d.approval_token_expiry now
    then some link_expired
    else none

-- `f"RI-{id}-{timezone.now().strftime('%Y%m')}"`
unfoldable pub ri_number : ℕ → List ℕ → List ℕ
ri_number id month = b'R' ∷ b'I' ∷ b'-' ∷ (show id ++ b'-' ∷ month)

-- The row for a delivery request.
unfoldable pub pmo_row : Env → ℕ → DeliveryRequest → ResourceRequest → PmoRequest
unfolding ri_number
pmo_row env id d r = record {
  delivery_request = id;
  ri_no = ri_number id env.month;
  business_unit = r.business_unit;
  account_name = r.account_name;
  competency_group = d.competency_group;
  billing_title_in_sow = d.billing_title_in_sow;
  primary_skill = d.primary_skill;
  designation = d.designation;
  location = d.location;
  operating_model = d.operating_model;
  frequency = d.frequency;
  resource_required_date = d.resource_required_date;
  business_type = d.business_type;
  opportunity_probability = d.opportunity_probability;
  is_approved = true;
}

-- The columns of PostgreSQL that are shorter than what is copied into them: `varchar(50)`.
abbrev pub fits : PmoRequest → Bool
fits p = leb (length p.primary_skill) 50 && leb (length p.ri_no) 50

-- The one-to-one field and the unique RI number.
abbrev pub taken : PmoRequest → List PmoRequest → Bool
taken p = any (λ q. q.delivery_request == p.delivery_request || same_text q.ri_no p.ri_no)

-- `PMORequest.objects.create`; `none` is an exception of the database.
unfoldable pub create_pmo : PmoRequest → List PmoRequest → Option (List PmoRequest)
create_pmo p ps = if fits p && not (taken p ps) then some (ps ++ p ∷ []) else none

-- `delivery_request.save()`, with the link used up.
unfoldable pub close : Status → ℕ → DeliveryRequest → Db → Db
close s id d db = record db {
  deliveries =
      put id (record d { status = s; approval_token = none; approval_token_expiry = none })
        db.deliveries;
}

-- The mail to the owner of the request and to IT support.
unfoldable pub status_mails : Settings → ResourceRequest → List Mail
status_mails settings r =
    let to_owner = if truthy r.owner_email then r.owner_email ∷ [] else [] in
    let to_support =
      if truthy settings.it_support_email then settings.it_support_email ∷ [] else [] in
    if settings.status_template && (truthy r.owner_email || truthy settings.it_support_email)
    then status_changed (to_owner ++ to_support) ∷ []
    else []

-- TEAM_EMAILS and, where it is not among them, IT support.
abbrev pub team_recipients : Settings → List String
team_recipients settings =
    if truthy settings.it_support_email
      && not (any (str_eq settings.it_support_email) settings.team_emails)
    then settings.team_emails ++ settings.it_support_email ∷ []
    else settings.team_emails

abbrev pub team_mail : List String → List Mail
team_mail [] = []
team_mail (a ∷ as') = team_details (a ∷ as') ∷ []

unfoldable pub team_mails : Settings → List Mail
team_mails settings = if settings.team_template then team_mail (team_recipients settings) else []

-- 'approve', for a row that has been let through, behind the insert.
unfoldable pub approve :
    Settings
    → ℕ
    → DeliveryRequest
    → ResourceRequest
    → Option (List PmoRequest)
    → Db
    → Page × (Db × List Mail)
unfolding close status_mails team_mails
approve settings id d r none db = (server_error, (db, []))
approve settings id d r (some ps) db = (
  done approved,
  (
    close approved id d (record db { pmo_requests = ps }),
    status_mails settings r ++ team_mails settings,
  ),
)

-- A foreign key with no row behind it raises where it is followed: in front of the insert, and
-- behind the write of a rejection. Every exception is shown as an error.
unfoldable pub approve_on :
    Settings → Env → ℕ → DeliveryRequest → Option ResourceRequest → Db → Page × (Db × List Mail)
unfolding approve pmo_row create_pmo
approve_on settings env id d none db = (server_error, (db, []))
approve_on settings env id d (some r) db =
    approve settings id d r (create_pmo (pmo_row env id d r) db.pmo_requests) db

unfoldable pub reject_on :
    Settings → ℕ → DeliveryRequest → Option ResourceRequest → Db → Page × (Db × List Mail)
unfolding close status_mails
reject_on settings id d none db = (server_error, (close rejected id d db, []))
reject_on settings id d (some r) db =
    (done rejected, (close rejected id d db, status_mails settings r))

-- The action, for a row that has been let through.
unfoldable pub act :
    Settings
    → Env
    → ℕ
    → String
    → DeliveryRequest
    → Option ResourceRequest
    → Db
    → Page × (Db × List Mail)
unfolding approve_on reject_on
act settings env id action d r db =
    if str_eq action "approve"
    then approve_on settings env id d r db
    else if str_eq action "reject"
    then reject_on settings id d r db
    else (invalid_action, (db, []))

unfoldable pub visit_on :
    Settings → Env → ℕ → String → DeliveryRequest → Option Page → Db → Page × (Db × List Mail)
unfolding act
visit_on settings env id action d (some page) db = (page, (db, []))
visit_on settings env id action d none db =
    act settings env id action d (get d.resource_request db.resources) db

-- A key with no row raises, too.
unfoldable pub visit :
    Settings → Env → ℕ → String → String → Option DeliveryRequest → Db → Page × (Db × List Mail)
unfolding visit_on refuse
visit settings env id token action none db = (server_error, (db, []))
visit settings env id token action (some d) db =
    visit_on settings env id action d (refuse env.now token d) db

-- The view, with every exception shown as a page.
unfoldable pub handle_pmo_approval :
    Settings → Env → ℕ → String → String → Db → Page × (Db × List Mail)
unfolding visit
handle_pmo_approval settings env id token action db =
    visit settings env id token action (get id db.deliveries) db

-- The helper: what it returns, or an exception of the database.
pub data Helper : Type 0 where
  returned : Bool → Helper
  raised : Helper

unfoldable pub created : Option (List PmoRequest) → Db → Helper × Db
created none db = (raised, db)
created (some ps) db = (returned true, record db { pmo_requests = ps })

unfoldable pub create_for : Env → ℕ → DeliveryRequest → Option ResourceRequest → Db → Helper × Db
unfolding created pmo_row create_pmo
create_for env id d none db = (raised, db)
create_for env id d (some r) db = created (create_pmo (pmo_row env id d r) db.pmo_requests) db

unfoldable pub helper_on : Env → ℕ → Option DeliveryRequest → Db → Helper × Db
unfolding create_for
helper_on env id none db = (returned false, db)
helper_on env id (some d) db = create_for env id d (get d.resource_request db.resources) db

unfoldable pub approve_pmo_request : Env → ℕ → Db → Helper × Db
unfolding helper_on
approve_pmo_request env id db = helper_on env id (get id db.deliveries) db
