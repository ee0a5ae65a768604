-- ===== src/ResourceRequests/Approval/Outcomes.antt =====
-- How a visit of the PMO's link may end, and what a second visit finds (`handle_pmo_approval`, resource_requests/views.py).
use optima_management.Base.{
  ℕ, ◌≡◌, ◌≢◌, refl, String, Bool, true, false, not, Option, none, some, List, [], is_some,
  if◌then◌else◌, if-both, str_eq,
}
use optima_management.Base.Table.{get, get-put_self}
use optima_management.ResourceRequests.Types.{
  ResourceRequest, Status, approved, rejected, DeliveryRequest, PmoRequest, Db, Env, Settings, Mail,
}
use optima_management.ResourceRequests.Approval.{
  Page, already_processed, invalid_link, link_expired, invalid_action, server_error, done, close,
  approve, approve_on, reject_on, act, visit_on, refuse, visit, handle_pmo_approval, token_matches,
  is_expired, is_pending,
}

-- What a visit may end with. The last constructor is a rejection whose request names no row.
data Outcome (id : ℕ) (db : Db) : Page × (Db × List Mail) → Type 0 where
  kept : (page : Page) → ((st : Status) → page ≢ done st) → Outcome id db (page, (db, []))
  closed :
      (st : Status) (d : DeliveryRequest) (db' : Db) (mails : List Mail)
      → is_pending st ≡ false
      → Outcome id db (done st, (close st id d db', mails))
  dangling :
      (d : DeliveryRequest)
      → get id db.deliveries ≡ some d
      → get d.resource_request db.resources ≡ none
      → Outcome id db (server_error, (close rejected id d db, []))

module _ (settings : Settings) (env : Env) (id : ℕ) (db : Db) where
  approve-Outcome :
      (d : DeliveryRequest) (r : ResourceRequest) (o : Option (List PmoRequest))
      → Outcome id db (approve settings id d r o db)
  unfolding approve
  approve-Outcome d r none = kept server_error (λ st e. cc)
  approve-Outcome d r (some ps) = closed approved d _ _ refl

  act-Outcome :
      (action : String) (d : DeliveryRequest) (o : Option ResourceRequest)
      → get id db.deliveries ≡ some d
      → get d.resource_request db.resources ≡ o
      → Outcome id db (act settings env id action d o db)
  unfolding act approve_on reject_on
  act-Outcome action d none e f =
      if-both (Outcome id db) (str_eq action "approve") _ _ (kept server_error (λ st p. cc)) (
        if-both (Outcome id db) (str_eq action "reject") _ _ (dangling d e f)
          (kept invalid_action (λ st p. cc)))
  act-Outcome action d (some r) e f =
      if-both (Outcome id db) (str_eq action "approve") _ _ (approve-Outcome d r _) (
        if-both (Outcome id db) (str_eq action "reject") _ _ (closed rejected d db _ refl)
          (kept invalid_action (λ st p. cc)))

  visit_on-Outcome :
      (token action : String) (d : DeliveryRequest)
      → get id db.deliveries ≡ some d
      → Outcome id db (visit_on settings env id action d (refuse env.now token d) db)
  unfolding refuse visit_on
  visit_on-Outcome token action d e =
      go (not (is_pending d.status)) (not (token_matches d.approval_token token))
        (is_expired d.approval_token_expiry env.now)
    where
      go :
          (a b c : Bool)
          → Outcome id db (
              visit_on settings env id action d
                (if a
                  then some already_processed
                  else if b
                  then some invalid_link
                  else if c
                  then some link_expired
                  else none)
                db)
      go true b c = kept already_processed (λ st p. cc)
      go false true c = kept invalid_link (λ st p. cc)
      go false false true = kept link_expired (λ st p. cc)
      go false false false = act-Outcome action d _ e refl

  visit-Outcome :
      (token action : String) (o : Option DeliveryRequest)
      → get id db.deliveries ≡ o
      → Outcome id db (visit settings env id token action o db)
  unfolding visit
  visit-Outcome token action none e = kept server_error (λ st p. cc)
  visit-Outcome token action (some d) e = visit_on-Outcome token action d e

  handle-Outcome :
      (token action : String) → Outcome id db (handle_pmo_approval settings env id token action db)
  unfolding handle_pmo_approval
  handle-Outcome token action = visit-Outcome token action _ refl

visit_settled :
    (settings : Settings) (env : Env) (id : ℕ) (token action : String) (db : Db)
    (d : DeliveryRequest)
    → get id db.deliveries ≡ some d
    → is_pending d.status ≡ false
    → handle_pmo_approval settings env id token action db ≡ (already_processed, (db, []))
unfolding handle_pmo_approval visit visit_on refuse
visit_settled settings env id token action db d e p = rw (e, p) refl

Outcome-used_up :
    (settings : Settings) (env : Env) (id : ℕ) (token action : String) (db : Db)
    (x : Page × (Db × List Mail)) (st : Status)
    → Outcome id db x
    → x.0 ≡ done st
    → handle_pmo_approval settings env id token action x.1.0 ≡ (already_processed, (x.1.0, []))
unfolding close
Outcome-used_up settings env id token action db x st (kept page n) h = absurd (n st h)
Outcome-used_up settings env id token action db x st (closed st' d db' mails p) h =
    visit_settled settings env id token action _ _ (get-put_self id _ db'.deliveries) p
Outcome-used_up settings env id token action db x st (dangling d e f) h = cc

Outcome-unchanged :
    (id : ℕ) (db : Db) (x : Page × (Db × List Mail))
    → ((d : DeliveryRequest)
        → get id db.deliveries ≡ some d
        → is_some (get d.resource_request db.resources) ≡ true)
    → ((st : Status) → x.0 ≢ done st)
    → Outcome id db x
    → x.1 ≡ (db, [])
Outcome-unchanged id db x fk h (kept page n) = refl
Outcome-unchanged id db x fk h (closed st d db' mails p) = absurd (h st refl)
Outcome-unchanged id db x fk h (dangling d e f) = let g = fk d e in cc

-- A link that has done its work is used up: whoever visits the request next, with any token and any
-- action, is told that it has been processed, and nothing changes.
pub done_link-used_up :
    (settings settings' : Settings) (env env' : Env) (id : ℕ) (token token' action action' : String)
    (db : Db) (st : Status)
    → (handle_pmo_approval settings env id token action db).0 ≡ done st
    → handle_pmo_approval settings' env' id token' action'
        (handle_pmo_approval settings env id token action db).1.0
      ≡ (already_processed, ((handle_pmo_approval settings env id token action db).1.0, []))
done_link-used_up settings settings' env env' id token token' action action' db st h =
    Outcome-used_up settings' env' id token' action' db _ st
      (handle-Outcome settings env id db token action) h

-- Whenever the visitor does not read that the request has been approved or rejected, nothing has
-- changed and no mail is sent. The request that a row names is there.
pub failed_visit-unchanged :
    (settings : Settings) (env : Env) (id : ℕ) (token action : String) (db : Db)
    → ((d : DeliveryRequest)
        → get id db.deliveries ≡ some d
        → is_some (get d.resource_request db.resources) ≡ true)
    → ((st : Status) → (handle_pmo_approval settings env id token action db).0 ≢ done st)
    → (handle_pmo_approval settings env id token action db).1 ≡ (db, [])
failed_visit-unchanged settings env id token action db fk h =
    Outcome-unchanged id db _ fk h (handle-Outcome settings env id db token action)
