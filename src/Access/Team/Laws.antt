-- ===== src/Access/Team/Laws.antt =====
-- The actions of `AccessRequestViewSet` (resource_management/views.py) by users inside and outside
-- the resource team.
use optima_management.Base.{
  ℕ, ◌≡◌, refl, ap, ◌∙◌, String, Bool, true, false, not, Option, none, some, ◌∷◌, arith, Bool-cases,
  inl, inr,
}
use optima_management.Base.Table.{get, get-put_self}
use optima_management.Access.Types.{approved, AccessRequest, HistoryAction, was_approved, Db, Env}
use optima_management.Access.Save.{
  clashes, fill_expiry, fill_token, fill_justification, prepare, write_row, save,
}
use optima_management.Access.Team.{
  User, Response, done, visible, record_action, guarded, approve_row, approve, reject,
  request_approval,
}

module _ (process_content_images strip_tags : String → String) where
  outsider_guarded :
      (u : User) (db : Db) (o : Option AccessRequest) (act : AccessRequest → Response × Db)
      → u.in_resource_team ≡ false
      → (guarded process_content_images strip_tags u db o act).1 ≡ db
  unfolding guarded
  outsider_guarded u db none act h = refl
  outsider_guarded u db (some r) act h = elim (Bool-cases (not (visible u r))) [
    | inl hidden ↦ rw hidden
    | inr seen ↦ rw (seen, h)
  ]

  -- A user outside the resource team changes nothing by any of the three actions.
  pub outsider_unchanged :
      (strip : String → String) (is_email : String → Bool) (delivered : Bool) (env : Env) (u : User)
      (id : ℕ) (email : Option String) (db : Db)
      → u.in_resource_team ≡ false
      → ((approve process_content_images strip_tags env u id db).1 ≡ db)
        × ((reject process_content_images strip_tags env u id db).1 ≡ db)
        × ((request_approval process_content_images strip_tags strip is_email delivered env u id
              email db).1
            ≡ db)
  unfolding approve reject request_approval
  outsider_unchanged strip is_email delivered env u id email db h = (
    outsider_guarded u db (get id db.requests) _ h,
    outsider_guarded u db (get id db.requests) _ h,
    outsider_guarded u db (get id db.requests) _ h,
  )

  inside_guarded :
      (u : User) (db : Db) (r : AccessRequest) (act : AccessRequest → Response × Db)
      → u.in_resource_team ≡ true
      → guarded process_content_images strip_tags u db (some r) act ≡ act r
  unfolding guarded visible
  inside_guarded u db r act h = ground arith

  saved_decision :
      (env : Env) (id by : ℕ) (h : HistoryAction) (q : AccessRequest) (db : Db)
      → clashes id (prepare process_content_images strip_tags env q) db.requests ≡ false
      → let (answer, db') =
          record_action process_content_images strip_tags id by h done
            (save process_content_images strip_tags env id q db) in
        (answer ≡ done)
        × (get id db'.requests ≡ some (prepare process_content_images strip_tags env q))
        × (db'.history
            ≡ record { access_request = id; action = h; performed_by = some by } ∷ db.history)
  unfolding save write_row record_action
  saved_decision env id by h q db c = (rw c, rw c (get-put_self id _ db.requests), rw c)

  prepare_status :
      (env : Env) (q : AccessRequest)
      → ((prepare process_content_images strip_tags env q).status ≡ q.status)
        × ((prepare process_content_images strip_tags env q).approved_by ≡ q.approved_by)
        × ((prepare process_content_images strip_tags env q).approved_at ≡ q.approved_at)
  unfolding prepare fill_expiry fill_token fill_justification
  prepare_status env q = ground arith

  approve-save :
      (env : Env) (u : User) (id : ℕ) (r : AccessRequest) (db : Db)
      → u.in_resource_team ≡ true
      → get id db.requests ≡ some r
      → approve process_content_images strip_tags env u id db
        ≡ record_action process_content_images strip_tags id u.id was_approved done (
            save process_content_images strip_tags env id
              (record r { status = approved; approved_by = some u.id; approved_at = some env.now })
              db)
  unfolding approve
  approve-save env u id r db h found =
      ap
        (λ o.
          guarded process_content_images strip_tags u db o
            (approve_row process_content_images strip_tags env u id db))
        found
      ∙ inside_guarded u db r (approve_row process_content_images strip_tags env u id db) h
      ∙ (unfold approve_row in refl)

  -- A member of the team approves any request, whatever its status: where the row clashes with no
  -- other, it is stored as approved by the member at that time, and the history names the member.
  pub team_approve_stored :
      (env : Env) (u : User) (id : ℕ) (r : AccessRequest) (db : Db)
      → u.in_resource_team ≡ true
      → get id db.requests ≡ some r
      → clashes id
          (prepare process_content_images strip_tags env
            (record r { status = approved; approved_by = some u.id; approved_at = some env.now }))
          db.requests
        ≡ false
      → let (answer, db') = approve process_content_images strip_tags env u id db in
        (answer ≡ done)
        × ((r' : AccessRequest) × (get id db'.requests ≡ some r')
            × (r'.status ≡ approved)
            × (r'.approved_by ≡ some u.id)
            × (r'.approved_at ≡ some env.now))
        × (db'.history
            ≡ record { access_request = id; action = was_approved; performed_by = some u.id }
              ∷ db.history)
  team_approve_stored env u id r db h found c =
      let q : AccessRequest = record r {
        status = approved;
        approved_by = some u.id;
        approved_at = some env.now;
      } in
      let (s, b, t) = prepare_status env q in
      let (d, g, l) = saved_decision env id u.id was_approved q db c in
      rw (approve-save env u id r db h found)
        (d, (prepare process_content_images strip_tags env q, g, s, b, t), l)
