-- ===== src/Access/Links/Use.antt =====
-- How the approval links and the confirmation page of resource_management/views.py are used: the
-- answer to an open request, to a decided one, and the page before the decision.
use optima_management.Base.{
  ℕ, ◌≡◌, refl, ap, ◌∙◌, ◌≢◌, ◌↔◌, inl, inr, String, Bool, false, Option, none, some, [], ◌∷◌,
  arith, Option-cases, eq_iff,
}
use optima_management.Base.Table.{Table, get, get-put_self}
use optima_management.Access.Types.{Status, AccessRequest, HistoryAction, Db, Env}
use optima_management.Access.Save.{
  same_ticket, same_token, clashes, fill_expiry, fill_token, fill_justification, prepare, write_row,
  save,
}
use optima_management.Access.Links.{
  LinkAction, approve, reject, other, Page, already_processed, confirmation, processed,
  awaits_approver, refuse, decide, record_decision, perform, answer, approval_on, handle_approval,
  awaits_owner, owner_approval_on, handle_resource_owner_approval, page_or_form, confirm,
  approval_confirmation,
}
use optima_management.Access.Links.Laws.{IsDecided, IsOpen, refuse-IsOpen, handle_approval-Decides}

IsOpen-refuse :
    (awaits : Status → Bool) (env : Env) (token : String) (r : AccessRequest)
    → IsOpen awaits env.now token r
    → refuse awaits env.now token r ≡ none
unfolding refuse
IsOpen-refuse awaits env token r op =
    ground (arith, op.waits, op.own_token, op.in_time, eq_iff token token)

refuse_decided :
    (a : LinkAction) (env : Env) (token : String) (r : AccessRequest)
    → IsDecided a r.status
    → refuse awaits_approver env.now token r ≡ some already_processed
unfolding refuse
refuse_decided approve env token r d = ground (arith, d)
refuse_decided reject env token r d = ground (arith, d)
refuse_decided other env token r d = absurd d

refuse_decided_owner :
    (a : LinkAction) (env : Env) (token : String) (r : AccessRequest)
    → IsDecided a r.status
    → refuse awaits_owner env.now token r ≡ some already_processed
unfolding refuse
refuse_decided_owner approve env token r d = ground (arith, d)
refuse_decided_owner reject env token r d = ground (arith, d)
refuse_decided_owner other env token r d = absurd d

-- Without a token and with the same ticket number a row clashes with no more rows than before.
clashes_mono :
    (k : ℕ) (r q : AccessRequest) (t : Table AccessRequest)
    → q.ticket_number ≡ r.ticket_number
    → q.approval_token ≡ none
    → clashes k r t ≡ false
    → clashes k q t ≡ false
unfolding clashes
clashes_mono k r q [] e n h = refl
clashes_mono k r q ((j, s) ∷ t) e n h = ground (
  arith,
  clashes_mono k r q t e n,
  ap (λ x. same_ticket x s.ticket_number) e,
  ap (λ x. same_token x s.approval_token) n,
)

module _ (process_content_images strip_tags : String → String) where
  prepare_closed :
      (env : Env) (action : LinkAction) (r : AccessRequest)
      → IsDecided action r.status
      → r.approval_token ≡ none
      → ((prepare process_content_images strip_tags env r).approval_token ≡ none)
        × ((prepare process_content_images strip_tags env r).ticket_number ≡ r.ticket_number)
  unfolding prepare fill_expiry fill_token fill_justification
  prepare_closed env approve r d n = ground arith
  prepare_closed env reject r d n = ground arith
  prepare_closed env other r d n = absurd d

  perform_processed :
      (env : Env) (id : ℕ) (action : LinkAction) (db : Db) (r q : AccessRequest) (h : HistoryAction)
      → IsDecided action q.status
      → q.approval_token ≡ none
      → q.ticket_number ≡ r.ticket_number
      → clashes id r db.requests ≡ false
      → (perform process_content_images strip_tags env id action db (some (q, h))).0
        ≡ processed action
  unfolding perform record_decision save write_row
  perform_processed env id action db r q h d n e c =
      let (n', e') = prepare_closed env action q d n in
      rw (
        clashes_mono id r (prepare process_content_images strip_tags env q) db.requests (e' ∙ e) n'
          c)

  decide_processed :
      (env : Env) (id : ℕ) (action : LinkAction) (db : Db) (r : AccessRequest)
      → action ≢ other
      → clashes id r db.requests ≡ false
      → (perform process_content_images strip_tags env id action db
          (decide r.approved_by env.now action r)).0
        ≡ processed action
  unfolding decide
  decide_processed env id approve db r ne c =
      perform_processed env id approve db r _ _ refl refl refl c
  decide_processed env id reject db r ne c =
      perform_processed env id reject db r _ _ refl refl refl c
  decide_processed env id other db r ne c = absurd (ne refl)

  handle_found :
      (env : Env) (id : ℕ) (token : String) (action : LinkAction) (db : Db) (r : AccessRequest)
      → get id db.requests ≡ some r
      → handle_approval process_content_images strip_tags env id token action db
        ≡ approval_on process_content_images strip_tags env id token action db (some r)
  unfolding handle_approval
  handle_found env id token action db r found =
      ap (approval_on process_content_images strip_tags env id token action db) found

  approval_on-answer :
      (env : Env) (id : ℕ) (token : String) (action : LinkAction) (db : Db) (r : AccessRequest)
      (o : Option Page)
      → refuse awaits_approver env.now token r ≡ o
      → approval_on process_content_images strip_tags env id token action db (some r)
        ≡ answer process_content_images strip_tags env id action db o
            (decide r.approved_by env.now action r)
  unfolding approval_on
  approval_on-answer env id token action db r o e =
      ap
        (λ x.
          answer process_content_images strip_tags env id action db x
            (decide r.approved_by env.now action r))
        e

  -- The link of an open request decides it: with 'approve' or 'reject' the handler reports the
  -- action, where the stored row clashes with no other row.
  pub handle_approval-processed :
      (env : Env) (id : ℕ) (token : String) (action : LinkAction) (db : Db) (r : AccessRequest)
      → get id db.requests ≡ some r
      → IsOpen awaits_approver env.now token r
      → clashes id r db.requests ≡ false
      → action ≢ other
      → (handle_approval process_content_images strip_tags env id token action db).0
        ≡ processed action
  handle_approval-processed env id token action db r found op c ne =
      rw
        (
          handle_found env id token action db r found,
          approval_on-answer env id token action db r none
              (IsOpen-refuse awaits_approver env token r op),
        )
        (unfold answer in decide_processed env id action db r ne c)

  -- After `handle_approval` has decided a request, both links, `handle_approval` and
  -- `handle_resource_owner_approval`, say for the same request, with any token, any action and at any
  -- time, that it is processed, and change nothing.
  pub handle_approval-single_use :
      (env env' : Env) (id : ℕ) (token token' : String) (action action' : LinkAction) (db : Db)
      → (handle_approval process_content_images strip_tags env id token action db).0
        ≡ processed action
      → let db' = (handle_approval process_content_images strip_tags env id token action db).1 in
        (handle_approval process_content_images strip_tags env' id token' action' db'
          ≡ (already_processed, db'))
        × (handle_resource_owner_approval process_content_images strip_tags env' id token' action'
              db'
            ≡ (already_processed, db'))
  handle_approval-single_use env env' id token token' action action' db e =
      elim (handle_approval-Decides process_content_images strip_tags env id token action db).0 [
        | inl (ne, same) ↦ absurd (ne e)
        | inr (p, r, r', found, op, rows, d, n, tk) ↦
            closed action
              (handle_approval process_content_images strip_tags env id token action db).1 r'
              (ap (get id) rows ∙ get-put_self id r' db.requests) d
      ]
    where
      closed :
          (a : LinkAction) (db' : Db) (r' : AccessRequest)
          → get id db'.requests ≡ some r'
          → IsDecided a r'.status
          → (handle_approval process_content_images strip_tags env' id token' action' db'
              ≡ (already_processed, db'))
            × (handle_resource_owner_approval process_content_images strip_tags env' id token'
                  action' db'
                ≡ (already_processed, db'))
      closed a db' r' found d = (
        handle_found env' id token' action' db' r' found
            ∙ approval_on-answer env' id token' action' db' r' (some already_processed)
                (refuse_decided a env' token' r' d)
            ∙ (unfold answer in refl),
        unfold handle_resource_owner_approval owner_approval_on in
            ap (owner_approval_on process_content_images strip_tags env' id token' action' db')
              found
            ∙ ap
                (λ x.
                  answer process_content_images strip_tags env' id action' db' x
                    (decide none env'.now action' r'))
                (refuse_decided_owner a env' token' r' d)
            ∙ (unfold answer in refl),
      )

refuse-ne-confirmation :
    (awaits : Status → Bool) (env : Env) (token : String) (r : AccessRequest) (page : Page)
    → refuse awaits env.now token r ≡ some page
    → some (page_or_form (refuse awaits env.now token r)) ≢ some confirmation
unfolding refuse
refuse-ne-confirmation awaits env token r page e h = ground arith

confirm-IsOpen :
    (env : Env) (token : String) (r : AccessRequest)
    → (confirm env.now token (some r) ≡ some confirmation) ↔ IsOpen awaits_approver env.now token r
unfolding confirm
confirm-IsOpen env token r = (
  λ h. elim (Option-cases (refuse awaits_approver env.now token r)) [
    | inl e ↦ refuse-IsOpen awaits_approver env.now token r e
    | inr (page, e) ↦ absurd (refuse-ne-confirmation awaits_approver env token r page e h)
  ],
  λ op. rw (IsOpen-refuse awaits_approver env token r op),
)

-- The confirmation page is shown exactly for the requests whose link is open.
pub approval_confirmation-IsOpen :
    (env : Env) (id : ℕ) (token : String) (db : Db)
    → (approval_confirmation env id token db ≡ some confirmation) ↔ (
        (r : AccessRequest) × (get id db.requests ≡ some r)
        × IsOpen awaits_approver env.now token r)
unfolding approval_confirmation
approval_confirmation-IsOpen env id token db =
    (λ h. found (get id db.requests) refl h, λ (r, e, op). rw e ((confirm-IsOpen env token r).1 op))
  where
    found :
        (o : Option AccessRequest)
        → get id db.requests ≡ o
        → confirm env.now token o ≡ some confirmation
        → (r : AccessRequest) × (get id db.requests ≡ some r)
          × IsOpen awaits_approver env.now token r
    found none e h = unfold confirm in cc
    found (some r) e h = (r, e, (confirm-IsOpen env token r).0 h)
