-- ===== src/Access/Save/Fresh.antt =====
-- What `AccessRequest.save` (resource_management/models.py) writes into a row, and the save of a new
-- one.
use optima_management.Base.{
  ℕ, ◌+◌, ◌<◌, ◌≡◌, refl, sym, ap, ◌∙◌, ◌≢◌, inr, String, true, false, Option, none, some, List, [],
  ◌∷◌, arith, truthy,
}
use mathlib.Core.Path.{subst}
use optima_management.Base.Int.{ℤ, pos, ◌+ℤ◌, eqb_ℤ}
use optima_management.Base.Table.{Table, get, put, AllRows, AllRows-put, get-put_self}
use optima_management.Access.Types.{AccessRequest, Db, Env, Result, ok}
use optima_management.Access.Ticket.{next_ticket}
use optima_management.Access.Ticket.Order.{
  IsUpTo, IsUsed, day_ticket, next_ticket-fresh, AllUpTo-mono,
}
use optima_management.Access.Save.{
  timedelta_days, is_approval_required, has_token, same_ticket, same_token, clashes, fill_expiry,
  fill_token, fill_justification, prepare, write_row, save_numbered, save_new,
}

same_ticket-eq : (s t : List ℕ) → same_ticket s t ≡ true → s ≡ t
same_ticket-eq [] [] h = refl
same_ticket-eq [] (d ∷ t) h = cc
same_ticket-eq (c ∷ s) [] h = cc
same_ticket-eq (c ∷ s) (d ∷ t) h = ground (arith, same_ticket-eq s t)

-- No other row has the ticket number or the token, so the database takes the row.
clashes-false :
    (k : ℕ) (r : AccessRequest) (t : Table AccessRequest)
    → AllRows (λ s. s.ticket_number ≢ r.ticket_number) t
    → AllRows (λ s. same_token r.approval_token s.approval_token ≡ false) t
    → clashes k r t ≡ false
unfolding clashes
clashes-false k r [] h g = refl
clashes-false k r ((j, s) ∷ t) h g = ground (
  arith,
  clashes-false k r t h.1 g.1,
  same_ticket-eq r.ticket_number s.ticket_number,
  λ (e : r.ticket_number ≡ s.ticket_number). h.0 (sym e),
)

-- A request that waits for its approver has a token.
abbrev pub HasToken : AccessRequest → Type 0
HasToken r = is_approval_required r.status ≡ true → has_token r.approval_token ≡ true

module _ (process_content_images strip_tags : String → String) where
  abbrev pub saved : Env → AccessRequest → AccessRequest
  saved env r = prepare process_content_images strip_tags env r

  -- `save` leaves these fields as they are.
  pub prepare_keeps :
      (env : Env) (r : AccessRequest)
      → ((saved env r).ticket_number ≡ r.ticket_number)
        × ((saved env r).status ≡ r.status)
        × ((saved env r).asset ≡ r.asset)
        × ((saved env r).request_type ≡ r.request_type)
  unfolding prepare fill_expiry fill_token fill_justification
  prepare_keeps env r = ground arith

  pub prepare-HasToken :
      (env : Env) (r : AccessRequest) → truthy env.uuid ≡ true → HasToken (saved env r)
  unfolding prepare fill_expiry fill_token fill_justification
  prepare-HasToken env r h = ground arith

  -- The expiry date is kept where there is one; else a duration other than 0 fixes it.
  pub prepare_expiry :
      (env : Env) (r : AccessRequest) (d : ℤ)
      → r.duration ≡ some d
      → ((e : ℤ) → r.expires_at ≡ some e → (saved env r).expires_at ≡ some e)
        × (r.expires_at ≡ none
            → eqb_ℤ d (pos 0) ≡ false
            → (saved env r).expires_at ≡ some (env.now +ℤ timedelta_days d))
  unfolding prepare fill_expiry fill_token fill_justification
  prepare_expiry env r d h = (λ e q. ground arith, λ q z. ground arith)

  prepare_token :
      (env : Env) (r : AccessRequest) (o : Option String)
      → r.approval_token ≡ none
      → same_token (some env.uuid) o ≡ false
      → same_token (saved env r).approval_token o ≡ false
  unfolding prepare fill_expiry fill_token fill_justification
  prepare_token env r none e h = ground arith
  prepare_token env r (some s) e h = ground arith

  prepare_tokens :
      (env : Env) (r : AccessRequest) (t : Table AccessRequest)
      → r.approval_token ≡ none
      → AllRows (λ s. same_token (some env.uuid) s.approval_token ≡ false) t
      → AllRows (λ s. same_token (saved env r).approval_token s.approval_token ≡ false) t
  prepare_tokens env r [] e h = tt
  prepare_tokens env r ((j, s) ∷ t) e h =
      (prepare_token env r s.approval_token e h.0, prepare_tokens env r t e h.1)

  write_row_fresh :
      (env : Env) (k : ℕ) (r : AccessRequest) (db : Db)
      → clashes k r db.requests ≡ false
      → ((write_row process_content_images strip_tags env k r db).0 ≡ ok tt)
        × ((write_row process_content_images strip_tags env k r db).1.requests
            ≡ put k r db.requests)
  unfolding write_row
  write_row_fresh env k r db h = (rw h, rw h)

  save_new-write_row :
      (env : Env) (k : ℕ) (r : AccessRequest) (db : Db) (n : List ℕ)
      → next_ticket env.date db.requests ≡ ok n
      → save_new process_content_images strip_tags env k r db
        ≡ write_row process_content_images strip_tags env k
            (saved env (record r { ticket_number = n }))
            db
  unfolding save_new
  save_new-write_row env k r db n e =
      ap (save_numbered process_content_images strip_tags env k r db) e

  -- While the numbers of the day are below 9999 and the drawn token is not in use, a new request
  -- without a token is stored under one more than the last number of the day, which is the largest
  -- one that a row has, or 0.
  pub save_new_stores :
      (env : Env) (k : ℕ) (r : AccessRequest) (db : Db)
      → AllRows (λ s. IsUpTo env.date 9998 s.ticket_number) db.requests
      → AllRows (λ s. same_token (some env.uuid) s.approval_token ≡ false) db.requests
      → r.approval_token ≡ none
      → (m : ℕ) × (m < 9999)
        × ((save_new process_content_images strip_tags env k r db).0 ≡ ok tt)
        × (get k (save_new process_content_images strip_tags env k r db).1.requests
            ≡ some (saved env (record r { ticket_number = day_ticket env.date (m + 1) })))
        × IsUsed env.date db.requests m
        × AllRows (λ s. IsUpTo env.date m s.ticket_number) db.requests
        × AllRows
            (λ s. IsUpTo env.date (m + 1) s.ticket_number)
            (save_new process_content_images strip_tags env k r db).1.requests
  save_new_stores env k r db up unused none_yet =
      let (m, lt, e, used, below, ne) = next_ticket-fresh env.date db.requests up in
      let r' : AccessRequest = record r { ticket_number = day_ticket env.date (m + 1) } in
      let row : AccessRequest = saved env r' in
      let number : row.ticket_number ≡ day_ticket env.date (m + 1) = (prepare_keeps env r').0 in
      let fresh : clashes k row db.requests ≡ false =
        clashes-false k row db.requests (rw number ne)
          (prepare_tokens env r' db.requests none_yet unused) in
      let (done, rows) = write_row_fresh env k row db fresh in
      (
        m,
        lt,
        rw (save_new-write_row env k r db _ e) done,
        rw (save_new-write_row env k r db _ e) (ap (get k) rows ∙ get-put_self k row db.requests),
        used,
        below,
        subst (AllRows (λ s. IsUpTo env.date (m + 1) s.ticket_number))
            (sym (
              ap (λ (o : Result (Unit {0}) × Db). o.1.requests) (save_new-write_row env k r db _ e)
              ∙ rows))
            (AllRows-put (λ s. IsUpTo env.date (m + 1) s.ticket_number) k row db.requests
              (inr (m + 1, omega arith, number))
              (AllUpTo-mono env.date m (m + 1) db.requests (omega arith) below)),
      )
