-- ===== src/ResourceRequests/Approval/Links.antt =====
-- What the PMO's link does (`handle_pmo_approval`, resource_requests/views.py).
use optima_management.Base.{
  ℕ, ◌+◌, ◌≤◌, ◌<◌, ◌≡◌, refl, sym, ap, ◌∙◌, String, Bool, true, false, Option, none, some, List,
  [], ◌∷◌, ◌++◌, arith, is_some, if◌then◌else◌, ◌==◌, Bool-cases, inl, inr,
}
use optima_management.Base.Lists.{same_text, All, length}
use optima_management.Base.Table.{get}
use optima_management.ResourceRequests.Types.{
  ResourceRequest, approved, DeliveryRequest, PmoRequest, Db, Env, Settings,
}
use optima_management.ResourceRequests.Approval.{
  server_error, done, ri_number, pmo_row, fits, taken, create_pmo, close, approve, approve_on, act,
  visit_on, refuse, visit, handle_pmo_approval, token_matches, is_expired, is_pending, status_mails,
  team_mails, created, create_for, helper_on, approve_pmo_request,
}
use optima_management.ResourceRequests.Approval.Numbers.{ri_number-id, length-ri_number}
use optima_management.ResourceRequests.Approval.Sound.{IsNumbered, rows_of, rows_of-append}
use optima_management.ResourceRequests.Approval.Reach.{Reach, Reach-IsAccounted}

-- The link that was mailed, in time and for a request that is still pending.
pub record IsOpen (env : Env) (token : String) (d : DeliveryRequest) : Type 0 where
  pub waits : is_pending d.status ≡ true
  pub token_is : token_matches d.approval_token token ≡ true
  pub in_time : is_expired d.approval_token_expiry env.now ≡ false

IsOpen-is_some :
    (token : String) (o : Option String) → token_matches o token ≡ true → is_some o ≡ true
IsOpen-is_some token none h = cc
IsOpen-is_some token (some s) h = refl

refuse_open :
    (env : Env) (token : String) (d : DeliveryRequest)
    → IsOpen env token d
    → refuse env.now token d ≡ none
unfolding refuse
refuse_open env token d o = rw (o.waits, o.token_is, o.in_time) refl

-- A number that is made from another key is another number.
not_taken :
    (id : ℕ) (p : PmoRequest) (m : List ℕ) (ps : List PmoRequest)
    → p.delivery_request ≡ id
    → p.ri_no ≡ ri_number id m
    → rows_of id ps ≡ 0
    → All IsNumbered ps
    → taken p ps ≡ false
not_taken id p m [] e f h n = refl
not_taken id p m (q ∷ ps) e f h n =
    let rest = not_taken id p m ps e f (omega (arith, h)) n.1 in
    let other : (q.delivery_request == id) ≡ false = ground (arith, h) in
    let new : same_text q.ri_no p.ri_no ≡ false = elim (Bool-cases (same_text q.ri_no p.ri_no)) [
      | inl same ↦
          let k = ri_number-id q.delivery_request id n.0.0 m (
            ap (λ s. same_text s (ri_number id m)) (sym n.0.1)
            ∙ ap (same_text q.ri_no) (sym f)
            ∙ same) in
          ground (arith, k, other)
      | inr different ↦ different
    ] in
    rw (e, other, new) rest

create_pmo_new :
    (p : PmoRequest) (ps : List PmoRequest)
    → fits p ≡ true
    → taken p ps ≡ false
    → create_pmo p ps ≡ some (ps ++ p ∷ [])
unfolding create_pmo
create_pmo_new p ps f t = rw (f, t) refl

module _ (settings : Settings) (env : Env) (id : ℕ) (token : String) (d : DeliveryRequest)
    (r : ResourceRequest) (db : Db) where
  opened :
      (action : String)
      → IsOpen env token d
      → get id db.deliveries ≡ some d
      → get d.resource_request db.resources ≡ some r
      → handle_pmo_approval settings env id token action db
        ≡ act settings env id action d (some r) db
  unfolding handle_pmo_approval visit visit_on
  opened action o e f = rw (e, refuse_open env token d o, f) refl

  approve_open :
      (qs : Option (List PmoRequest))
      → IsOpen env token d
      → get id db.deliveries ≡ some d
      → get d.resource_request db.resources ≡ some r
      → create_pmo (pmo_row env id d r) db.pmo_requests ≡ qs
      → handle_pmo_approval settings env id token "approve" db ≡ approve settings id d r qs db
  unfolding act approve_on
  approve_open qs o e f c = opened "approve" o e f ∙ ap (λ x. approve settings id d r x db) c

  -- The link of a pending request, in time, approves it in every state that is reached: the request
  -- is approved and its link closed, one PMO row with the request's data is added, the only one of
  -- this request, and nothing else changes. The key has 31 bits, the month six digits, and the skill
  -- at most 50 characters.
  pub open_link-approved :
      {encode : ℕ → String → String}
      → Reach encode settings db
      → IsOpen env token d
      → get id db.deliveries ≡ some d
      → get d.resource_request db.resources ≡ some r
      → id < 2147483648
      → length env.month ≡ 6
      → length d.primary_skill ≤ 50
      → (handle_pmo_approval settings env id token "approve" db ≡ (
        done approved,
        (
          close approved id d
              (record db { pmo_requests = db.pmo_requests ++ pmo_row env id d r ∷ [] }),
          status_mails settings r ++ team_mails settings,
        ),
      ))
        × (rows_of id (db.pmo_requests ++ pmo_row env id d r ∷ []) ≡ 1)
  unfolding approve pmo_row
  open_link-approved reach o e f small m skill =
      let s = Reach-IsAccounted reach in
      let free =
        s.open_free id (ap is_some_token e ∙ IsOpen-is_some token d.approval_token o.token_is) in
      let row = pmo_row env id d r in
      (
        approve_open _ o e f (
            create_pmo_new row db.pmo_requests (row_fits small m skill) (
              not_taken id row env.month db.pmo_requests (unfold pmo_row in refl)
                (unfold pmo_row in refl) free s.numbered)),
        rows_of-append id db.pmo_requests (row ∷ []) ∙ one_row free,
      )
    where
      row_fits :
          id < 2147483648
          → length env.month ≡ 6
          → length d.primary_skill ≤ 50
          → fits (pmo_row env id d r) ≡ true
      row_fits a b c = ground (arith, length-ri_number id env.month a b)

      one_row :
          rows_of id db.pmo_requests ≡ 0
          → rows_of id db.pmo_requests + ((if id == id then 1 else 0) + 0) ≡ 1
      one_row h = ground arith

      is_some_token : Option DeliveryRequest → Bool
      is_some_token none = true
      is_some_token (some c) = is_some c.approval_token

  -- A skill of more than 50 characters can never be approved: the database refuses the row, the
  -- visitor sees an error, and the request stays as it is.
  pub long_skill-stuck :
      IsOpen env token d
      → get id db.deliveries ≡ some d
      → get d.resource_request db.resources ≡ some r
      → 50 < length d.primary_skill
      → handle_pmo_approval settings env id token "approve" db ≡ (server_error, (db, []))
  unfolding approve create_pmo pmo_row
  long_skill-stuck o e f long = approve_open none o e f (ground (arith, long))

  same_rows :
      (o : Option (List PmoRequest))
      → ((approve settings id d r o db).1.0.pmo_requests ≡ (created o db).1.pmo_requests)
        × ((created o db).1.deliveries ≡ db.deliveries)
  unfolding approve close created
  same_rows none = (refl, refl)
  same_rows (some ps) = (refl, refl)

  -- The helper and the view insert the same PMO row for a request whose link is open, or neither
  -- does; the helper leaves the request pending and its link open.
  pub approve_pmo_request-same_rows :
      IsOpen env token d
      → get id db.deliveries ≡ some d
      → get d.resource_request db.resources ≡ some r
      → ((handle_pmo_approval settings env id token "approve" db).1.0.pmo_requests
          ≡ (approve_pmo_request env id db).1.pmo_requests)
        × ((approve_pmo_request env id db).1.deliveries ≡ db.deliveries)
  unfolding approve_pmo_request helper_on create_for
  approve_pmo_request-same_rows o e f = rw (e, f, approve_open _ o e f refl) (same_rows _)
