-- ===== src/Access/Links/Laws.antt =====
-- When a request is open for an approval link, and what `handle_approval` and
-- `handle_resource_owner_approval` (resource_management/views.py) do to the tables.
use optima_management.Base.{
  ℕ, ◌≡◌, refl, ap, ◌∙◌, ◌≢◌, ◌⊎◌, inl, inr, String, Bool, true, false, Option, none, some, arith,
  Bool-cases, eq_iff,
}
use optima_management.Base.Int.{ℤ}
use optima_management.Base.Table.{get, put}
use optima_management.Access.Types.{
  Status, approved, rejected, AccessRequest, HistoryAction, Db, Env, ok, raised, Error,
  integrity_error,
}
use optima_management.Access.Save.{
  clashes, sync_asset_repair, fill_expiry, fill_token, fill_justification, prepare, write_row, save,
}
use optima_management.Access.Links.{
  LinkAction, approve, reject, other, Page, processed, awaits_approver, awaits_owner, token_matches,
  is_expired, refuse, decide, record_decision, perform, answer, approval_on, handle_approval,
  owner_approval_on, handle_resource_owner_approval,
}

-- The status that an action stands for.
abbrev pub IsDecided : LinkAction → Status → Type 0
IsDecided approve s = s ≡ approved
IsDecided reject s = s ≡ rejected
IsDecided other s = ⊥

-- A request that a link with this token may decide at this time.
pub record IsOpen (awaits : Status → Bool) (now : ℤ) (token : String) (r : AccessRequest)
    : Type 0 where
  pub waits : awaits r.status ≡ true
  pub own_token : r.approval_token ≡ some token
  pub in_time : is_expired r.approval_token_expiry now ≡ false

token_matches-eq : (o : Option String) (t : String) → token_matches o t ≡ true → o ≡ some t
token_matches-eq none t h = cc
token_matches-eq (some s) t h = ap some ((eq_iff s t).0 h)

-- No early return is taken exactly where the request is open.
pub refuse-IsOpen :
    (awaits : Status → Bool) (now : ℤ) (token : String) (r : AccessRequest)
    → refuse awaits now token r ≡ none
    → IsOpen awaits now token r
unfolding refuse
refuse-IsOpen awaits now token r h = ground (arith, token_matches-eq r.approval_token token)

refuse-ne-processed :
    (awaits : Status → Bool) (now : ℤ) (token : String) (r : AccessRequest) (page : Page)
    (action : LinkAction)
    → refuse awaits now token r ≡ some page
    → page ≢ processed action
unfolding refuse
refuse-ne-processed awaits now token r page action h e = ground arith

-- A call that leaves the table as it was, or decides the request under `id`.
abbrev pub Decides : (Status → Bool) → Env → ℕ → String → LinkAction → Db → Page × Db → Type 0
Decides awaits env id token action db (page, db') =
    ((page ≢ processed action) × (db' ≡ db))
    ⊎ ((page ≡ processed action)
        × (r : AccessRequest) × (r' : AccessRequest) × (get id db.requests ≡ some r)
        × IsOpen awaits env.now token r
        × (db'.requests ≡ put id r' db.requests)
        × IsDecided action r'.status
        × (r'.approval_token ≡ none)
        × (r'.ticket_number ≡ r.ticket_number))

module _ (process_content_images strip_tags : String → String) where
  -- A decided row is saved with its status, without a token.
  prepare-IsDecided :
      (env : Env) (action : LinkAction) (r : AccessRequest)
      → IsDecided action r.status
      → r.approval_token ≡ none
      → IsDecided action (prepare process_content_images strip_tags env r).status
        × ((prepare process_content_images strip_tags env r).approval_token ≡ none)
        × ((prepare process_content_images strip_tags env r).ticket_number ≡ r.ticket_number)
  unfolding prepare fill_expiry fill_token fill_justification
  prepare-IsDecided env approve r d n = ground arith
  prepare-IsDecided env reject r d n = ground arith
  prepare-IsDecided env other r d n = absurd d

  save_cases :
      (env : Env) (id : ℕ) (r : AccessRequest) (db : Db)
      → ((e : Error) × (save process_content_images strip_tags env id r db ≡ (raised e, db)))
        ⊎ ((db' : Db) × (save process_content_images strip_tags env id r db ≡ (ok tt, db'))
            × (db'.requests ≡ put id (prepare process_content_images strip_tags env r) db.requests))
  unfolding save write_row
  save_cases env id r db =
      elim (Bool-cases (clashes id (prepare process_content_images strip_tags env r) db.requests)) [
        | inl clash ↦ inl (integrity_error, rw clash)
        | inr fresh ↦ inr (
          record db {
            requests = put id (prepare process_content_images strip_tags env r) db.requests;
            repairs =
                sync_asset_repair process_content_images strip_tags env.new_id
                  (prepare process_content_images strip_tags env r) db.repairs;
          },
          rw fresh,
          refl,
        )
      ]

  abbrev act : Env → ℕ → LinkAction → Db → Option (AccessRequest × HistoryAction) → Page × Db
  act = perform process_content_images strip_tags

  perform-Decides :
      (awaits : Status → Bool) (env : Env) (id : ℕ) (token : String) (action : LinkAction) (db : Db)
      (r q : AccessRequest) (h : HistoryAction)
      → get id db.requests ≡ some r
      → IsOpen awaits env.now token r
      → IsDecided action q.status
      → q.approval_token ≡ none
      → q.ticket_number ≡ r.ticket_number
      → Decides awaits env id token action db (act env id action db (some (q, h)))
  unfolding perform record_decision
  perform-Decides awaits env id token action db r q h found op d n tk =
      elim (save_cases env id q db) [
        | inl (e, failed) ↦ rw failed (inl (λ c. cc, refl))
        | inr (db', done, rows) ↦
            let (d', n', tk') = prepare-IsDecided env action q d n in
            rw done (
              inr (
                refl,
                r,
                prepare process_content_images strip_tags env q,
                found,
                op,
                rows,
                d',
                n',
                tk' ∙ tk,
              ))
      ]

  decide-Decides :
      (awaits : Status → Bool) (env : Env) (id : ℕ) (token : String) (approver : Option ℕ)
      (action : LinkAction) (db : Db) (r : AccessRequest)
      → get id db.requests ≡ some r
      → IsOpen awaits env.now token r
      → Decides awaits env id token action db
          (act env id action db (decide approver env.now action r))
  unfolding decide
  decide-Decides awaits env id token approver approve db r found op =
      perform-Decides awaits env id token approve db r _ _ found op refl refl refl
  decide-Decides awaits env id token approver reject db r found op =
      perform-Decides awaits env id token reject db r _ _ found op refl refl refl
  decide-Decides awaits env id token approver other db r found op =
      unfold perform in inl (λ c. cc, refl)

  answer-Decides :
      (awaits : Status → Bool) (env : Env) (id : ℕ) (token : String) (approver : Option ℕ)
      (action : LinkAction) (db : Db) (r : AccessRequest) (o : Option Page)
      → get id db.requests ≡ some r
      → refuse awaits env.now token r ≡ o
      → Decides awaits env id token action db (
          answer process_content_images strip_tags env id action db o
            (decide approver env.now action r))
  unfolding answer
  answer-Decides awaits env id token approver action db r none found e =
      decide-Decides awaits env id token approver action db r found
        (refuse-IsOpen awaits env.now token r e)
  answer-Decides awaits env id token approver action db r (some page) found e =
      inl (refuse-ne-processed awaits env.now token r page action e, refl)

  -- Each approval link leaves every table as it was, or it decides an open request: the request
  -- waited in the state that the link is for, the token was its own and in time; the row under its
  -- key then has the status of the action and no token, and no other row changes.
  pub handle_approval-Decides :
      (env : Env) (id : ℕ) (token : String) (action : LinkAction) (db : Db)
      → Decides awaits_approver env id token action db
          (handle_approval process_content_images strip_tags env id token action db)
        × Decides awaits_owner env id token action db (
            handle_resource_owner_approval process_content_images strip_tags env id token action db)
  unfolding handle_approval handle_resource_owner_approval
  handle_approval-Decides env id token action db =
      (approver (get id db.requests) refl, owner (get id db.requests) refl)
    where
      approver :
          (o : Option AccessRequest)
          → get id db.requests ≡ o
          → Decides awaits_approver env id token action db
              (approval_on process_content_images strip_tags env id token action db o)
      approver none e = inl (λ c. cc, refl)
      approver (some r) e =
          answer-Decides awaits_approver env id token r.approved_by action db r _ e refl

      owner :
          (o : Option AccessRequest)
          → get id db.requests ≡ o
          → Decides awaits_owner env id token action db
              (owner_approval_on process_content_images strip_tags env id token action db o)
      owner none e = inl (λ c. cc, refl)
      owner (some r) e = answer-Decides awaits_owner env id token none action db r _ e refl
