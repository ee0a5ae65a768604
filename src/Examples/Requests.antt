-- ===== src/Examples/Requests.antt =====
-- Examples for the access requests (resource_management) and the assets.
use optima_management.Base.{
  ℕ, ◌+◌, ◌≡◌, ◌<◌, inr, refl, String, Bool, true, false, none, some, List, [], ◌∷◌, arith,
}
use optima_management.Base.Int.{pos}
use optima_management.Base.Table.{get, AllRows}
use optima_management.Access.Types.{
  AccessRequest, Db, Env, approval_required, approved, Priority, RequestType, ok,
}
use optima_management.Access.Ticket.Order.{IsUsed, day_ticket, IsUpTo}
use optima_management.Access.Save.{save, save_new, write_row, prepare, clashes}
use optima_management.Access.Save.Unique.{IsUnique}
use optima_management.Access.Save.Fresh.{saved, save_new_stores}
use optima_management.Access.Links.{
  approve, reject, processed, already_processed, awaits_approver, awaits_owner, handle_approval,
  handle_resource_owner_approval,
}
use optima_management.Access.Links.Laws.{IsOpen, Decides, handle_approval-Decides}
use optima_management.Access.Links.Use.{handle_approval-processed, handle_approval-single_use}
use optima_management.Access.Team.{User}
use optima_management.Access.Reach.{IsSound, here, next, follow_link, create, Reach-IsSound}

abbrev pub same : String → String
same s = s

abbrev accepts : String → Bool
accepts s = true

-- Code points of '20250102'.
abbrev pub day : List ℕ
day = b'2' ∷ b'0' ∷ b'2' ∷ b'5' ∷ b'0' ∷ b'1' ∷ b'0' ∷ b'2' ∷ []

abbrev pub env : Env
env = record { now = pos 1000; date = day; uuid = "u2"; new_id = 1 }

abbrev pub waiting : AccessRequest
waiting = record {
  ticket_number = day_ticket day 1;
  user = 4;
  asset = some 3;
  resource = none;
  access_level = none;
  priority = Priority.low;
  justification = "broken";
  duration = none;
  assigned_to = none;
  status = approval_required;
  requires_approval = true;
  notes = none;
  approver_email = none;
  approved_by = none;
  approved_at = none;
  requested_at = pos 0;
  expires_at = none;
  approval_token = some "u1";
  approval_token_expiry = some (pos 2000);
  request_type = RequestType.asset_repair;
}

abbrev pub db : Db
db = record { requests = (7, waiting) ∷ []; repairs = []; history = [] }

abbrev fresh : AccessRequest
fresh = record waiting { approval_token = none }

abbrev member : User
member = record { id = 9; is_staff = false; in_resource_team = true }

abbrev outsider : User
outsider = record { id = 4; is_staff = false; in_resource_team = false }

db-IsUnique : IsUnique db.requests
db-IsUnique j k a b e f n = ground arith

db-IsSound : IsSound db.requests
db-IsSound = record { unique = db-IsUnique; tokens = ((λ h. refl), tt) }

waiting-IsOpen : IsOpen awaits_approver env.now "u1" waiting
waiting-IsOpen = record { waits = refl; own_token = refl; in_time = refl }

Decides_example :
    Decides awaits_approver env 7 "u1" approve db (handle_approval same same env 7 "u1" approve db)
    × Decides awaits_owner env 7 "u1" approve db
        (handle_resource_owner_approval same same env 7 "u1" approve db)
Decides_example = handle_approval-Decides same same env 7 "u1" approve db

handled : (handle_approval same same env 7 "u1" approve db).0 ≡ processed approve
unfolding clashes
handled =
    handle_approval-processed same same env 7 "u1" approve db waiting refl waiting-IsOpen refl
      (λ e. cc)

single_use_example :
    let db' = (handle_approval same same env 7 "u1" approve db).1 in
    (handle_approval same same env 7 "u1" reject db' ≡ (already_processed, db'))
    × (handle_resource_owner_approval same same env 7 "u1" reject db' ≡ (already_processed, db'))
single_use_example =
    handle_approval-single_use same same env env 7 "u1" "u1" approve reject db handled

Reach_example :
    IsSound
      (handle_approval same same env 7 "u1" approve
        (save_new same same env 8 fresh db).1).1.requests
Reach_example =
    Reach-IsSound same same
      (next (next here (create env 8 fresh db refl))
        (follow_link env 7 "u1" approve (save_new same same env 8 fresh db).1 refl))
      db-IsSound

up_to : IsUpTo day 9998 (day_ticket day 1)
up_to = inr (1, ground arith, refl)

stores_example :
    (m : ℕ) × (m < 9999)
    × ((save_new same same env 8 fresh db).0 ≡ ok tt)
    × (get 8 (save_new same same env 8 fresh db).1.requests
        ≡ some (saved same same env (record fresh { ticket_number = day_ticket day (m + 1) })))
    × IsUsed day db.requests m
    × AllRows (λ s. IsUpTo day m s.ticket_number) db.requests
    × AllRows
        (λ s. IsUpTo day (m + 1) s.ticket_number)
        (save_new same same env 8 fresh db).1.requests
stores_example = save_new_stores same same env 8 fresh db (up_to, tt) (refl, tt) refl

saves : (save same same env 7 waiting db).0 ≡ ok tt
unfolding save clashes prepare write_row
saves = refl

team_clash :
    clashes 7
      (prepare same same env
        (record waiting { status = approved; approved_by = some 9; approved_at = some env.now }))
      db.requests
    ≡ false
unfolding clashes
team_clash = refl
