-- ===== src/ResourceRequests/Approval/Reach.antt =====
-- The tables of the staff requests (resource_requests): new requests, visits of the link and edits
-- as steps of one relation, and what holds in every state that they reach.
use optima_management.Base.{
  ℕ, ◌≡◌, refl, sym, ap, ◌∙◌, String, Option, none, some, List, [], arith, is_some, if-both, str_eq,
}
use mathlib.Core.Path.{subst}
use optima_management.Base.Table.{Table, get, put}
use optima_management.ResourceRequests.Types.{
  ResourceRequest, approved, rejected, DeliveryRequest, PmoRequest, Db, Env, Settings, Mail,
}
use optima_management.ResourceRequests.Created.{
  has_token, ensure_token, handle_delivery_request_save, send_pmo_approval_request,
  create_delivery_request,
}
use optima_management.ResourceRequests.Approval.{
  Page, pmo_row, create_pmo, close, approve, approve_on, reject_on, act, visit_on, refuse, visit,
  handle_pmo_approval,
}
use optima_management.ResourceRequests.Approval.Sound.{
  IsAccounted, rows_of, is_open, close-IsAccounted, approve-IsAccounted, put-IsAccounted,
  create_pmo_lem, refuse-is_open,
}

-- Nothing but new requests, the link, and edits of a row that keep its token, of any other field.
pub data Step (encode : ℕ → String → String) (settings : Settings) (db : Db) : Db → Type 0 where
  created :
      (env : Env) (id : ℕ) (d : DeliveryRequest)
      → get id db.deliveries ≡ none
      → Step encode settings db (create_delivery_request encode settings env id d db).0
  visited :
      (env : Env) (id : ℕ) (token action : String)
      → Step encode settings db (handle_pmo_approval settings env id token action db).1.0
  edited :
      (id : ℕ) (d d' : DeliveryRequest)
      → get id db.deliveries ≡ some d
      → d'.approval_token ≡ d.approval_token
      → Step encode settings db (record db { deliveries = put id d' db.deliveries })

pub data Reach (encode : ℕ → String → String) (settings : Settings) : Db → Type 0 where
  start :
      (rs : Table ResourceRequest)
      → Reach encode settings (record { resources = rs; deliveries = []; pmo_requests = [] })
  next :
      {db db' : Db}
      → Reach encode settings db
      → Step encode settings db db'
      → Reach encode settings db'

module _ (settings : Settings) (env : Env) (id : ℕ) (d : DeliveryRequest) (db : Db)
    (s : IsAccounted db) (free : rows_of id db.pmo_requests ≡ 0) where
  approve-row :
      (r : ResourceRequest) (o : Option (List PmoRequest))
      → o ≡ create_pmo (pmo_row env id d r) db.pmo_requests
      → IsAccounted (approve settings id d r o db).1.0
  unfolding approve
  approve-row r none e = s
  approve-row r (some ps) e =
      subst (λ qs. IsAccounted (close approved id d (record db { pmo_requests = qs })))
        (sym (create_pmo_lem (pmo_row env id d r) db.pmo_requests ps (sym e)))
        (approve-IsAccounted id d (pmo_row env id d r) db (unfold pmo_row in refl)
          (env.month, unfold pmo_row in refl) free s)

  approve_on-IsAccounted :
      (o : Option ResourceRequest) → IsAccounted (approve_on settings env id d o db).1.0
  unfolding approve_on
  approve_on-IsAccounted none = s
  approve_on-IsAccounted (some r) = approve-row r _ refl

  reject_on-IsAccounted :
      (o : Option ResourceRequest) → IsAccounted (reject_on settings id d o db).1.0
  unfolding reject_on
  reject_on-IsAccounted none = close-IsAccounted rejected id d db s
  reject_on-IsAccounted (some r) = close-IsAccounted rejected id d db s

  act-IsAccounted :
      (action : String) (o : Option ResourceRequest)
      → IsAccounted (act settings env id action d o db).1.0
  unfolding act
  act-IsAccounted action o =
      if-both (λ (x : Page × (Db × List Mail)). IsAccounted x.1.0) (str_eq action "approve") _ _
        (approve_on-IsAccounted o)
        (if-both (λ (x : Page × (Db × List Mail)). IsAccounted x.1.0) (str_eq action "reject") _
          (_, (db, [])) (reject_on-IsAccounted o) s)

visit-IsAccounted :
    (settings : Settings) (env : Env) (id : ℕ) (token action : String) (db : Db)
    → IsAccounted db
    → (o : Option DeliveryRequest) → get id db.deliveries ≡ o
    → IsAccounted (visit settings env id token action o db).1.0
unfolding visit visit_on
visit-IsAccounted settings env id token action db s none e = s
visit-IsAccounted settings env id token action db s (some d) e = go (refuse env.now token d) refl
  where
    go :
        (p : Option Page)
        → refuse env.now token d ≡ p
        → IsAccounted (visit_on settings env id action d p db).1.0
    go (some page) h = s
    go none h =
        act-IsAccounted settings env id d db s
          (s.open_free id (ap is_open e ∙ refuse-is_open env.now token d h)) action _

-- A request with no PMO row may get a token.
ensure_token-IsAccounted :
    (encode : ℕ → String → String) (env : Env) (id : ℕ) (d : DeliveryRequest) (db : Db)
    → rows_of id db.pmo_requests ≡ 0
    → IsAccounted db
    → IsAccounted (ensure_token encode env id d db).1
      × ((ensure_token encode env id d db).1.pmo_requests ≡ db.pmo_requests)
unfolding ensure_token
ensure_token-IsAccounted encode env id d db free s =
    if-both (λ (x : DeliveryRequest × Db). IsAccounted x.1 × (x.1.pmo_requests ≡ db.pmo_requests))
      (has_token d.approval_token) (d, db) (_, record db { deliveries = put id _ db.deliveries })
      (s, refl) (put-IsAccounted db id _ s (λ h. free), refl)

create-IsAccounted :
    (encode : ℕ → String → String) (settings : Settings) (env : Env) (id : ℕ) (d : DeliveryRequest)
    (db : Db)
    → get id db.deliveries ≡ none
    → IsAccounted db
    → IsAccounted (create_delivery_request encode settings env id d db).0
unfolding create_delivery_request handle_delivery_request_save send_pmo_approval_request
create-IsAccounted encode settings env id d db new s =
    let free = s.open_free id (ap is_open new) in
    let saved : Db = record db { deliveries = put id d db.deliveries } in
    let first =
      ensure_token-IsAccounted encode env id d saved free (put-IsAccounted db id d s (λ h. free)) in
    let x = ensure_token encode env id d saved in
    (ensure_token-IsAccounted encode env id x.0 x.1 (ap (rows_of id) first.1 ∙ free) first.0).0

Step-IsAccounted :
    (encode : ℕ → String → String) (settings : Settings) {a b : Db}
    → Step encode settings a b
    → IsAccounted a
    → IsAccounted b
unfolding handle_pmo_approval
Step-IsAccounted encode settings (created env id d new) s =
    create-IsAccounted encode settings env id d _ new s
Step-IsAccounted encode settings {a = db} (visited env id token action) s =
    visit-IsAccounted settings env id token action db s (get id db.deliveries) refl
Step-IsAccounted encode settings {a = db} (edited id d d' e t) s =
    put-IsAccounted db id d' s (λ h. s.open_free id (ap is_open e ∙ ap is_some (sym t) ∙ h))

-- In every state that is reached from empty tables, a request whose link is open has no PMO row, no
-- request has two, and each RI number is made from the key of its request.
pub Reach-IsAccounted :
    {encode : ℕ → String → String} {settings : Settings} {db : Db}
    → Reach encode settings db
    → IsAccounted db
Reach-IsAccounted (start rs) = record {
  open_free = λ k h. refl;
  single = λ k. omega arith;
  numbered = tt;
}
Reach-IsAccounted {encode} {settings} (next r st) =
    Step-IsAccounted encode settings st (Reach-IsAccounted r)
