-- ===== src/Access/Admin/Reopened.antt =====
-- A request that the admin sends to an approver (resource_management/admin.py).
use optima_management.Base.{
  if_true, ℕ, ◌≡◌, refl, ap, ◌∙◌, String, true, false, some, List, arith, inl, inr, ◌⊎◌, ◌≢◌,
  if-both, opt_eq,
}
use optima_management.Base.Int.{ℤ, +ℤ_parts, ◌+ℤ◌, ltb_ℤ}
use optima_management.Base.Table.{get, put, get-put_self}
use optima_management.Access.Types.{
  Status, approval_required, AccessRequest, Db, Env, Error, Result, ok, raised,
}
use optima_management.Access.Save.{
  days, fill_expiry, fill_token, fill_justification, prepare, write_row, save,
}
use optima_management.Access.Links.{awaits_approver, is_expired}
use optima_management.Access.Links.Laws.{IsOpen}
use optima_management.Access.Admin.{
  User, Resource, approver_changed, ask_approver, log, log_change, save_logged, save_assigned,
  save_change, is_privileged,
}

later : (now : ℤ) (n : ℕ) → ltb_ℤ (now +ℤ days n) now ≡ false
later now n = ground (arith, +ℤ_parts now (days n))

raised-ne-ok : (e : Error) → ◌≢◌ {A = Result (Unit {0})} (raised e) (ok tt)
raised-ne-ok e h = cc

module _ (resources : List Resource) (u : User)
    (process_content_images strip_tags : String → String) where
  asked_expiry :
      (env : Env) (r : AccessRequest)
      → (prepare process_content_images strip_tags env
          (ask_approver resources u env r)).approval_token_expiry
        ≡ some (env.now +ℤ days 15)
  unfolding prepare fill_expiry fill_token fill_justification ask_approver
  asked_expiry env r = ground arith

  asked-IsOpen :
      (env : Env) (r : AccessRequest)
      → IsOpen awaits_approver env.now env.uuid
          (prepare process_content_images strip_tags env (ask_approver resources u env r))
  unfolding prepare fill_expiry fill_token fill_justification ask_approver
  asked-IsOpen env r = record {
    waits = ground arith;
    own_token = ground arith;
    in_time = ap (λ o. is_expired o env.now) (asked_expiry env r) ∙ later env.now 15;
  }

  stored :
      (env : Env) (k : ℕ) (r : AccessRequest) (db : Db)
      → (save process_content_images strip_tags env k r db).0 ≡ ok tt
      → (save process_content_images strip_tags env k r db).1.requests
        ≡ put k (prepare process_content_images strip_tags env r) db.requests
  unfolding save write_row
  stored env k r db h = ground arith

  log_change-requests :
      (k : ℕ) (old now : Status) (db : Db) (p : Result (Unit {0}) × Db)
      → (log_change resources u k old now db p).0 ≡ ok tt
      → (p.0 ≡ ok tt) × ((log_change resources u k old now db p).1.requests ≡ p.1.requests)
  unfolding log_change log
  log_change-requests k old now db (raised e, saved) h = absurd (raised-ne-ok e h)
  log_change-requests k old now db (ok x, saved) h =
      (refl, if-both (λ (d : Db). d.requests ≡ saved.requests) _ saved _ refl refl)

  logged-IsOpen :
      (env : Env) (k : ℕ) (old : Status) (r : AccessRequest) (before db : Db)
      → (save_logged resources u process_content_images strip_tags env k old
          (ask_approver resources u env r)
          before
          db).0
        ≡ ok tt
      → (r' : AccessRequest) × (get k
            (save_logged resources u process_content_images strip_tags env k old
              (ask_approver resources u env r)
              before
              db).1.requests
          ≡ some r')
        × IsOpen awaits_approver env.now env.uuid r'
  unfolding save_logged ask_approver
  logged-IsOpen env k old r before db h =
      let r1 = ask_approver resources u env r in
      let p = save process_content_images strip_tags env k r1 before in
      let (went, rows) = log_change-requests k old approval_required db p h in
      let r2 = prepare process_content_images strip_tags env r1 in
      (
        r2,
        ap (get k) (rows ∙ stored env k r1 before went) ∙ get-put_self k r2 before.requests,
        asked-IsOpen env r,
      )

  -- A save that goes through leaves the request open for the fresh token.
  abbrev Reopens : Env → ℕ → Result (Unit {0}) × Db → Type 0
  Reopens env k p =
      p.0 ≡ ok tt
      → (r' : AccessRequest) × (get k p.1.requests ≡ some r')
        × IsOpen awaits_approver env.now env.uuid r'

  assigned-Reopens :
      (env : Env) (k : ℕ) (old r : AccessRequest) (before db : Db)
      → approver_changed resources u old r ≡ true
      → Reopens env k
          (save_assigned resources u process_content_images strip_tags env k old r before db)
  unfolding save_assigned
  assigned-Reopens env k old r before db c =
      if_true (Reopens env k) (approver_changed resources u old r) _ _ c
        (logged-IsOpen env k old.status r _ db)

  -- A change that names another approver, or sends a request to its approver again, and that is saved:
  -- the stored request is open for the fresh token.
  pub save_change-IsOpen :
      (env : Env) (k : ℕ) (old r : AccessRequest) (db : Db)
      → approver_changed resources u old r ≡ true
      → (opt_eq old.assigned_to r.assigned_to ≡ true) ⊎ (is_privileged resources u ≡ true)
      → (save_change resources u process_content_images strip_tags env k old r db).0 ≡ ok tt
      → (r' : AccessRequest) × (get k
            (save_change resources u process_content_images strip_tags env k old r db).1.requests
          ≡ some r')
        × IsOpen awaits_approver env.now env.uuid r'
  unfolding save_change
  save_change-IsOpen env k old r db c (inl same) =
      if_true (Reopens env k) (opt_eq old.assigned_to r.assigned_to) _ _ same
        (assigned-Reopens env k old r db db c)
  save_change-IsOpen env k old r db c (inr able) =
      if-both (Reopens env k) (opt_eq old.assigned_to r.assigned_to) _ _
        (assigned-Reopens env k old r db db c)
        (if_true (Reopens env k) (is_privileged resources u) _ _ able
          (assigned-Reopens env k old r _ db c))
