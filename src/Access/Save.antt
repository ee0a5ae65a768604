-- ===== src/Access/Save.antt =====
-- `AccessRequest.save` (resource_management/models.py) with the receiver of its `post_save` signal,
-- `sync_asset_repair_from_access_request` (resource_management/signals.py). `process_content_images`
-- rewrites the HTML of the justification by BeautifulSoup and `strip_tags` is Django's; both are
-- parameters.
pub mod Unique
pub mod Fresh
pub mod Repairs
use optima_management.Base.{
  ℕ, ◌*◌, String, Bool, true, false, not, ◌&&◌, ◌||◌, Option, none, some, List, [], ◌∷◌, ◌==◌,
  str_eq, is_some, truthy, get_or, if◌then◌else◌,
}
use optima_management.Base.Int.{ℤ, pos, ◌+ℤ◌, scale, eqb_ℤ}
use optima_management.Base.Table.{Table, put, find_newest}
use optima_management.Access.Types.{
  Status, pending, approval_required, approver_approved, approver_rejected, approved, rejected,
  revoked, RequestType, new, it, asset_repair, AccessRequest, RepairStatus, reported, in_repair,
  cancelled, AssetRepair, Db, Env, Result, ok, raised, Error, integrity_error,
}
use optima_management.Access.Ticket.{next_ticket}

abbrev pub days : ℕ → ℤ
days n = pos (n * 86400)

-- `timedelta(days=d)` in seconds.
abbrev pub timedelta_days : ℤ → ℤ
timedelta_days d = scale 86400 d

abbrev pub is_approval_required : Status → Bool
is_approval_required approval_required = true
is_approval_required _ = false

abbrev pub is_asset_repair : RequestType → Bool
is_asset_repair asset_repair = true
is_asset_repair _ = false

-- `not self.approval_token`: the token is null or empty.
abbrev pub has_token : Option String → Bool
has_token none = false
has_token (some s) = truthy s

abbrev pub same_ticket : List ℕ → List ℕ → Bool
same_ticket [] [] = true
same_ticket (c ∷ s) (d ∷ t) = c == d && same_ticket s t
same_ticket _ _ = false

abbrev pub same_token : Option String → Option String → Bool
same_token (some s) (some t) = str_eq s t
same_token _ _ = false

-- `if not self.expires_at and self.duration`
unfoldable pub fill_expiry : ℤ → AccessRequest → AccessRequest
fill_expiry now r = elim r.expires_at [
  | some e ↦ r
  | none ↦ elim r.duration [
    | none ↦ r
    | some d ↦
        if eqb_ℤ d (pos 0) then r else record r { expires_at = some (now +ℤ timedelta_days d) }
  ]
]

-- `if self.status == 'APPROVAL_REQUIRED' and not self.approval_token`
unfoldable pub fill_token : Env → AccessRequest → AccessRequest
fill_token env r =
    if is_approval_required r.status && not (has_token r.approval_token)
    then record r {
      approval_token = some env.uuid;
      approval_token_expiry = some (env.now +ℤ days 15);
    }
    else r

-- The unique fields: another row has the ticket number, or the token where that is not null.
unfoldable pub clashes : ℕ → AccessRequest → Table AccessRequest → Bool
clashes k r [] = false
clashes k r ((j, s) ∷ t) =
    (not (k == j)
      && (same_ticket r.ticket_number s.ticket_number
          || same_token r.approval_token s.approval_token))
    || clashes k r t

-- `status_map.get(instance.status, 'REPORTED')`
unfoldable pub repair_status : Status → RepairStatus
repair_status approved = in_repair
repair_status rejected = cancelled
repair_status revoked = cancelled
repair_status approver_rejected = cancelled
repair_status _ = reported

module _ (process_content_images strip_tags : String → String) where
  unfoldable pub fill_justification : AccessRequest → AccessRequest
  fill_justification r =
      if truthy r.justification
      then record r { justification = process_content_images r.justification }
      else r

  unfoldable pub update_repair : ℕ → AccessRequest → AssetRepair → AssetRepair
  update_repair asset r p =
      let text = strip_tags r.justification in
      record p {
        asset = asset;
        status = repair_status r.status;
        issue_description =
            if truthy text && not (truthy p.issue_description) then text else p.issue_description;
      }

  unfoldable pub new_repair : ℕ → AccessRequest → AssetRepair
  new_repair asset r = record {
    asset = asset;
    status = repair_status r.status;
    issue_description = strip_tags r.justification;
    ticket_reference = r.ticket_number;
    notes = get_or "" r.notes;
  }

  -- Update the repair that was found, or create one under the key `id`.
  unfoldable pub write_found :
      ℕ → ℕ → AccessRequest → Table AssetRepair → Option (ℕ × AssetRepair) → Table AssetRepair
  unfolding update_repair new_repair
  write_found id asset r t none = put id (new_repair asset r) t
  write_found id asset r t (some (k, p)) = put k (update_repair asset r p) t

  -- `AssetRepair.objects.filter(ticket_reference=...).first()`, for a request with an asset: the
  -- repairs are ordered by `-created_at`, and keys grow with the time.
  unfoldable pub write_repair : ℕ → Option ℕ → AccessRequest → Table AssetRepair → Table AssetRepair
  unfolding write_found
  write_repair id none r t = t
  write_repair id (some asset) r t =
      write_found id asset r t (find_newest (λ p. same_ticket p.ticket_reference r.ticket_number) t)

  unfoldable pub sync_asset_repair : ℕ → AccessRequest → Table AssetRepair → Table AssetRepair
  unfolding write_repair
  sync_asset_repair id r t =
      if is_asset_repair r.request_type then write_repair id r.asset r t else t

  -- What `save` writes into the row before the database sees it.
  unfoldable pub prepare : Env → AccessRequest → AccessRequest
  prepare env r = fill_justification (fill_token env (fill_expiry env.now r))

  -- `super().save()`: the unique fields, the row, and the signal.
  unfoldable pub write_row : Env → ℕ → AccessRequest → Db → Result (Unit {0}) × Db
  write_row env k r db = if clashes k r db.requests then (raised integrity_error, db) else (
    ok tt,
    record db {
      requests = put k r db.requests;
      repairs = sync_asset_repair env.new_id r db.repairs;
    },
  )

  -- A row that is not new keeps its ticket number.
  unfoldable pub save : Env → ℕ → AccessRequest → Db → Result (Unit {0}) × Db
  save env k r db = write_row env k (prepare env r) db

  unfoldable pub save_numbered :
      Env → ℕ → AccessRequest → Db → Result (List ℕ) → Result (Unit {0}) × Db
  save_numbered env k r db (raised e) = (raised e, db)
  save_numbered env k r db (ok n) =
      write_row env k (prepare env (record r { ticket_number = n })) db

  -- `_state.adding`
  unfoldable pub save_new : Env → ℕ → AccessRequest → Db → Result (Unit {0}) × Db
  unfolding save_numbered
  save_new env k r db = save_numbered env k r db (next_ticket env.date db.requests)
