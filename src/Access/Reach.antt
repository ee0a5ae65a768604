-- ===== src/Access/Reach.antt =====
-- The handlers of resource_management/views.py as steps of one relation on the tables.
use optima_management.Base.{
  ℕ, ◌≡◌, refl, String, Bool, true, not, Option, none, some, List, Bool-cases, truthy, inl, inr,
  if-both, get_or,
}
use optima_management.Base.Table.{Table, get, AllRows, AllRows-put}
use optima_management.Access.Types.{AccessRequest, HistoryAction, Db, Env, Result, ok, raised}
use optima_management.Access.Ticket.{next_ticket}
use optima_management.Access.Save.{clashes, write_row, save, save_numbered, save_new}
use optima_management.Access.Save.Unique.{IsUnique, save-IsUnique}
use optima_management.Access.Save.Fresh.{HasToken, prepare-HasToken}
use optima_management.Access.Links.{
  LinkAction, Page, record_decision, perform, answer, approval_on, handle_approval,
  owner_approval_on, handle_resource_owner_approval,
}
use optima_management.Access.Team
use optima_management.Access.Team.{User, Response, record_action, guarded, ask_approver}

-- No two rows share a ticket number, and every row that waits for its approver has a token.
pub record IsSound (t : Table AccessRequest) : Type 0 where
  pub unique : IsUnique t
  pub tokens : AllRows HasToken t

module _ (process_content_images strip_tags : String → String) where
  write_row-tokens :
      (env : Env) (k : ℕ) (r : AccessRequest) (db : Db)
      → HasToken r
      → AllRows HasToken db.requests
      → AllRows HasToken (write_row process_content_images strip_tags env k r db).1.requests
  unfolding write_row
  write_row-tokens env k r db h t = elim (Bool-cases (clashes k r db.requests)) [
    | inl clash ↦ rw clash t
    | inr fresh ↦ rw fresh (AllRows-put HasToken k r db.requests h t)
  ]

  -- Every write goes through `save`, which fills in a token.
  save-IsSound :
      (env : Env) (k : ℕ) (r : AccessRequest) (db : Db)
      → truthy env.uuid ≡ true
      → IsSound db.requests
      → IsSound (save process_content_images strip_tags env k r db).1.requests
  unfolding save
  save-IsSound env k r db u s = record {
    unique = (save-IsUnique process_content_images strip_tags env k r db s.unique).0;
    tokens =
        write_row-tokens env k _ db (prepare-HasToken process_content_images strip_tags env r u)
          s.tokens;
  }

  save_new-IsSound :
      (env : Env) (k : ℕ) (r : AccessRequest) (db : Db)
      → truthy env.uuid ≡ true
      → IsSound db.requests
      → IsSound (save_new process_content_images strip_tags env k r db).1.requests
  unfolding save_new
  save_new-IsSound env k r db u s = record {
    unique = (save-IsUnique process_content_images strip_tags env k r db s.unique).1;
    tokens = numbered (next_ticket env.date db.requests);
  }
    where
      numbered :
          (n : Result (List ℕ))
          → AllRows HasToken
              (save_numbered process_content_images strip_tags env k r db n).1.requests
      numbered (raised e) = s.tokens
      numbered (ok n) =
          write_row-tokens env k _ db (prepare-HasToken process_content_images strip_tags env _ u)
            s.tokens

  record_decision-requests :
      (id : ℕ) (h : HistoryAction) (a : LinkAction) (x : Result (Unit {0}) × Db)
      → (record_decision process_content_images strip_tags id h a x).1.requests ≡ x.1.requests
  unfolding record_decision
  record_decision-requests id h a (raised e, db) = refl
  record_decision-requests id h a (ok u, db) = refl

  record_action-requests :
      (id by : ℕ) (h : HistoryAction) (a : Response) (x : Result (Unit {0}) × Db)
      → (record_action process_content_images strip_tags id by h a x).1.requests ≡ x.1.requests
  unfolding record_action
  record_action-requests id by h a (raised e, db) = refl
  record_action-requests id by h a (ok u, db) = refl

  module _ (env : Env) (uuid : truthy env.uuid ≡ true) (id : ℕ) (db : Db)
      (sound : IsSound db.requests) where
    perform-IsSound :
        (a : LinkAction) (o : Option (AccessRequest × HistoryAction))
        → IsSound (perform process_content_images strip_tags env id a db o).1.requests
    unfolding perform
    perform-IsSound a none = sound
    perform-IsSound a (some (r, h)) =
        rw (record_decision-requests id h a (save process_content_images strip_tags env id r db))
          (save-IsSound env id r db uuid sound)

    answer-IsSound :
        (a : LinkAction) (page : Option Page) (o : Option (AccessRequest × HistoryAction))
        → IsSound (answer process_content_images strip_tags env id a db page o).1.requests
    unfolding answer
    answer-IsSound a none o = perform-IsSound a o
    answer-IsSound a (some page) o = sound

    approval_on-IsSound :
        (token : String) (a : LinkAction) (o : Option AccessRequest)
        → IsSound (approval_on process_content_images strip_tags env id token a db o).1.requests
    unfolding approval_on
    approval_on-IsSound token a none = sound
    approval_on-IsSound token a (some r) = answer-IsSound a _ _

    owner_approval_on-IsSound :
        (token : String) (a : LinkAction) (o : Option AccessRequest)
        → IsSound
            (owner_approval_on process_content_images strip_tags env id token a db o).1.requests
    unfolding owner_approval_on
    owner_approval_on-IsSound token a none = sound
    owner_approval_on-IsSound token a (some r) = answer-IsSound a _ _

    guarded-IsSound :
        (u : User) (act : AccessRequest → Response × Db) (o : Option AccessRequest)
        → ((r : AccessRequest) → IsSound (act r).1.requests)
        → IsSound (guarded process_content_images strip_tags u db o act).1.requests
    unfolding guarded
    guarded-IsSound u act none h = sound
    guarded-IsSound u act (some r) h = elim (Bool-cases (not (Team.visible u r))) [
      | inl hidden ↦ rw hidden sound
      | inr seen ↦ elim (Bool-cases (not u.in_resource_team)) [
        | inl outside ↦ rw (seen, outside) sound
        | inr inside ↦ rw (seen, inside) (h r)
      ]
    ]

  -- One call of a handler. `uuid4().hex` is not the empty text.
  pub data Step : Db → Db → Type 0 where
    create :
        (env : Env) (k : ℕ) (r : AccessRequest) (db : Db)
        → truthy env.uuid ≡ true
        → Step db (save_new process_content_images strip_tags env k r db).1
    follow_link :
        (env : Env) (id : ℕ) (token : String) (a : LinkAction) (db : Db)
        → truthy env.uuid ≡ true
        → Step db (handle_approval process_content_images strip_tags env id token a db).1
    follow_owner_link :
        (env : Env) (id : ℕ) (token : String) (a : LinkAction) (db : Db)
        → truthy env.uuid ≡ true
        → Step db
            (handle_resource_owner_approval process_content_images strip_tags env id token a db).1
    team_approve :
        (env : Env) (u : User) (id : ℕ) (db : Db)
        → truthy env.uuid ≡ true
        → Step db (Team.approve process_content_images strip_tags env u id db).1
    team_reject :
        (env : Env) (u : User) (id : ℕ) (db : Db)
        → truthy env.uuid ≡ true
        → Step db (Team.reject process_content_images strip_tags env u id db).1
    team_request :
        (env : Env) (strip : String → String) (is_email : String → Bool) (delivered : Bool)
        (u : User) (id : ℕ) (email : Option String) (db : Db)
        → truthy env.uuid ≡ true
        → Step db
            (Team.request_approval process_content_images strip_tags strip is_email delivered env u
              id email db).1

  pub data Reach (start : Db) : Db → Type 0 where
    here : Reach start start
    next : {a b : Db} → Reach start a → Step a b → Reach start b

  acted :
      (env : Env) (uuid : truthy env.uuid ≡ true) (id by : ℕ) (h : HistoryAction) (a : Response)
      (db : Db) (r : AccessRequest)
      → IsSound db.requests
      → IsSound
          (record_action process_content_images strip_tags id by h a
            (save process_content_images strip_tags env id r db)).1.requests
  acted env uuid id by h a db r s =
      rw (record_action-requests id by h a (save process_content_images strip_tags env id r db))
        (save-IsSound env id r db uuid s)

  asked :
      (env : Env) (uuid : truthy env.uuid ≡ true) (strip : String → String)
      (is_email : String → Bool) (delivered : Bool) (u : User) (id : ℕ) (email : String) (db : Db)
      (r : AccessRequest)
      → IsSound db.requests
      → IsSound
          (ask_approver process_content_images strip_tags strip is_email delivered env u id email db
            r).1.requests
  unfolding ask_approver
  asked env uuid strip is_email delivered u id email db r s =
      if-both Keeps (not (truthy email)) _ _ s
        (if-both Keeps (not (is_email email)) _ _ s (acted env uuid id u.id _ _ db _ s))
    where
      Keeps : Response × Db → Type 0
      Keeps x = IsSound x.1.requests

  Step-IsSound : {a b : Db} → Step a b → IsSound a.requests → IsSound b.requests
  unfolding handle_approval handle_resource_owner_approval Team.approve Team.reject
      Team.request_approval
  Step-IsSound (create env k r db uuid) s = save_new-IsSound env k r db uuid s
  Step-IsSound (follow_link env id token a db uuid) s =
      approval_on-IsSound env uuid id db s token a (get id db.requests)
  Step-IsSound (follow_owner_link env id token a db uuid) s =
      owner_approval_on-IsSound env uuid id db s token a (get id db.requests)
  Step-IsSound (team_approve env u id db uuid) s =
      guarded-IsSound env uuid id db s u _ (get id db.requests)
        (λ r. acted env uuid id u.id _ _ db _ s)
  Step-IsSound (team_reject env u id db uuid) s =
      guarded-IsSound env uuid id db s u _ (get id db.requests)
        (λ r. acted env uuid id u.id _ _ db _ s)
  Step-IsSound (team_request env strip is_email delivered u id email db uuid) s =
      guarded-IsSound env uuid id db s u _ (get id db.requests)
        (λ r. asked env uuid strip is_email delivered u id (strip (get_or "" email)) db r s)

  -- After any sequence of calls the ticket numbers are distinct, and every request that waits for
  -- its approver has a token.
  pub Reach-IsSound : {a b : Db} → Reach a b → IsSound a.requests → IsSound b.requests
  Reach-IsSound here s = s
  Reach-IsSound (next r st) s = Step-IsSound st (Reach-IsSound r s)
