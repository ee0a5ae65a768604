-- ===== src/Examples/Staff.antt =====
-- Examples for the requests for staff (resource_requests).
use optima_management.Base.{
  ℕ, ◌≡◌, ◌≢◌, refl, sym, ap, some-eq, zero, suc, String, true, none, some, List, [], ◌∷◌, ◌++◌,
  arith, is_some,
}
use mathlib.Core.Path.{subst}
use optima_management.Base.Table.{get}
use optima_management.ResourceRequests.Types.{
  ResourceRequest, Status, pending, approved, DeliveryRequest, Db, Env, Settings, Mail,
}
use optima_management.ResourceRequests.Created.{create_delivery_request}
use optima_management.ResourceRequests.Approval.{
  Page, server_error, done, pmo_row, close, handle_pmo_approval, status_mails, team_mails,
}
use optima_management.ResourceRequests.Approval.Sound.{IsAccounted, rows_of}
use optima_management.ResourceRequests.Approval.Reach.{
  Reach, start, next, created, Reach-IsAccounted,
}
use optima_management.ResourceRequests.Approval.Links.{IsOpen, open_link-approved, long_skill-stuck}
use optima_management.ResourceRequests.Approval.Outcomes.{failed_visit-unchanged}

abbrev settings : Settings
settings = record {
  it_support_email = "it@techoptima.com";
  team_emails = "team@techoptima.com" ∷ [];
  pmo_emails = "pmo@techoptima.com" ∷ [];
  request_template = true;
  status_template = true;
  team_template = true;
}

abbrev month : List ℕ
month = b'2' ∷ b'0' ∷ b'2' ∷ b'5' ∷ b'0' ∷ b'6' ∷ []

abbrev env : Env
env = record { now = 1000; month = month; uuid = "a81f" }

abbrev later : Env
later = record { now = 2000; month = month; uuid = "b92e" }

-- A stand-in for base64.
abbrev encode : ℕ → String → String
encode id uuid = uuid

abbrev resource : ResourceRequest
resource = record {
  owner_email = "ann@techoptima.com";
  account_name = "Acme";
  business_unit = "Branta";
}

abbrev wanted : List ℕ → DeliveryRequest
wanted skill = record {
  resource_request = 3;
  competency_group = "AI/ML";
  primary_skill = skill;
  designation = "Engineer";
  billing_title_in_sow = "";
  operating_model = "WFO";
  frequency = "Every day";
  resource_required_date = 20300;
  location = "Offshore";
  opportunity_probability = "100% - Received Signed SOW";
  business_type = "Pure Staffing";
  status = pending;
  approval_token = none;
  approval_token_expiry = none;
}

abbrev sql : List ℕ
sql = b's' ∷ b'q' ∷ b'l' ∷ []

abbrev before : Db
before = record { resources = (3, resource) ∷ []; deliveries = []; pmo_requests = [] }

-- The tables behind the new request.
abbrev opened : List ℕ → DeliveryRequest
opened skill = record (wanted skill) {
  approval_token = some "a81f";
  approval_token_expiry = some 1297000;
}

abbrev db : Db
db = record { resources = (3, resource) ∷ []; deliveries = (7, opened sql) ∷ []; pmo_requests = [] }

made : (create_delivery_request encode settings env 7 (wanted sql) before).0 ≡ db
unfolding create_delivery_request
made = refl

db-Reach : Reach encode settings db
db-Reach =
    subst (Reach encode settings) made
      (next (start ((3, resource) ∷ [])) (created env 7 (wanted sql) refl))

reached_example : IsAccounted db
reached_example = Reach-IsAccounted db-Reach

in_time : (skill : List ℕ) → IsOpen later "a81f" (opened skill)
in_time skill = record { waits = refl; token_is = refl; in_time = refl }

approved_example :
    (handle_pmo_approval settings later 7 "a81f" "approve" db ≡ (
      done approved,
      (
        close approved 7
            (opened sql)
            (record db { pmo_requests = [] ++ pmo_row later 7 (opened sql) resource ∷ [] }),
        status_mails settings resource ++ team_mails settings,
      ),
    ))
    × (rows_of 7 ([] ++ pmo_row later 7 (opened sql) resource ∷ []) ≡ 1)
approved_example =
    open_link-approved settings later 7 "a81f" (opened sql) resource db db-Reach (in_time sql) refl
      refl (omega arith) refl (omega arith)

-- A skill of 51 letters.
abbrev letters : ℕ → List ℕ
letters zero = []
letters (suc n) = b'x' ∷ letters n

abbrev long : Db
long = record db { deliveries = (7, opened (letters 51)) ∷ [] }

stuck_example :
    handle_pmo_approval settings later 7 "a81f" "approve" long ≡ (server_error, (long, []))
stuck_example =
    long_skill-stuck settings later 7 "a81f" (opened (letters 51)) resource long
      (in_time (letters 51)) refl refl (omega arith)

is_done : (handle_pmo_approval settings later 7 "a81f" "approve" db).0 ≡ done approved
is_done = ap (λ (x : Page × (Db × List Mail)). x.0) approved_example.0

names_row :
    (d : DeliveryRequest)
    → get 7 db.deliveries ≡ some d
    → is_some (get d.resource_request db.resources) ≡ true
names_row d e = rw (sym (some-eq e)) refl

not_done : (st : Status) → (handle_pmo_approval settings later 7 "guess" "approve" db).0 ≢ done st
unfolding handle_pmo_approval
not_done st e = cc

failed_example : (handle_pmo_approval settings later 7 "guess" "approve" db).1 ≡ (db, [])
failed_example = failed_visit-unchanged settings later 7 "guess" "approve" db names_row not_done
