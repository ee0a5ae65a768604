-- ===== src/Access/Save/Repairs.antt =====
-- The repair that follows a request: `sync_asset_repair_from_access_request`
-- (resource_management/signals.py) under a save.
use optima_management.Base.{
  ℕ, ◌≡◌, refl, sym, ap, ◌∙◌, ◌≢◌, String, Bool, true, Option, none, some, List, [], ◌∷◌, arith,
  if◌then◌else◌,
}
use mathlib.Core.Path.{subst}
use optima_management.Base.Table.{Table, get, find_newest, get-put_self, get-put_ne}
use optima_management.Access.Types.{AccessRequest, AssetRepair, Db, Env, ok, asset_repair}
use optima_management.Access.Save.{
  same_ticket, is_asset_repair, repair_status, update_repair, new_repair, write_found, write_repair,
  sync_asset_repair, prepare, write_row, save,
}
use optima_management.Access.Save.Fresh.{prepare_keeps}

pub same_ticket_refl : (s : List ℕ) → same_ticket s s ≡ true
same_ticket_refl [] = refl
same_ticket_refl (c ∷ s) = ground (arith, same_ticket_refl s)

find_newest_test :
    (p : AssetRepair → Bool) (t : Table AssetRepair) (k : ℕ) (a : AssetRepair)
    → find_newest p t ≡ some (k, a)
    → p a ≡ true
find_newest_test p [] k a e = cc
find_newest_test p ((j, b) ∷ t) k a e = go (find_newest p t) (find_newest_test p t k a) e
  where
    go :
        (o : Option (ℕ × AssetRepair))
        → (o ≡ some (k, a) → p a ≡ true)
        → (elim o as (λ _. Option (ℕ × AssetRepair)) [
          | some r ↦ some r
          | none ↦ if p b then some (j, b) else none
        ])
          ≡ some (k, a)
        → p a ≡ true
    go (some r) rest q = rest q
    go none rest q = ground (arith, q)

-- The repair under key `k` is the one of this ticket, brought up to date; no other row changed.
pub record IsSynced (asset : ℕ) (r : AccessRequest) (old t : Table AssetRepair) (k : ℕ)
    (p : AssetRepair) : Type 0 where
  pub stored : get k t ≡ some p
  pub of_ticket : same_ticket p.ticket_reference r.ticket_number ≡ true
  pub of_asset : p.asset ≡ asset
  pub of_status : p.status ≡ repair_status r.status
  pub others : (j : ℕ) → j ≢ k → get j t ≡ get j old

IsSynced-same :
    (asset : ℕ) (r r' : AccessRequest) (old t : Table AssetRepair) (k : ℕ) (p : AssetRepair)
    → r.ticket_number ≡ r'.ticket_number
    → r.status ≡ r'.status
    → IsSynced asset r old t k p
    → IsSynced asset r' old t k p
IsSynced-same asset r r' old t k p e f s = record {
  stored = s.stored;
  of_ticket = subst (λ n. same_ticket p.ticket_reference n ≡ true) e s.of_ticket;
  of_asset = s.of_asset;
  of_status = s.of_status ∙ ap repair_status f;
  others = s.others;
}

module _ (process_content_images strip_tags : String → String) where
  write_found-IsSynced :
      (id asset : ℕ) (r : AccessRequest) (t : Table AssetRepair) (o : Option (ℕ × AssetRepair))
      → find_newest (λ p. same_ticket p.ticket_reference r.ticket_number) t ≡ o
      → (k : ℕ) × (p : AssetRepair) × IsSynced asset r t
          (write_found process_content_images strip_tags id asset r t o)
          k
          p
  unfolding write_found update_repair new_repair
  write_found-IsSynced id asset r t none e = (
    id,
    new_repair process_content_images strip_tags asset r,
    record {
      stored = get-put_self id _ t;
      of_ticket = same_ticket_refl r.ticket_number;
      of_asset = refl;
      of_status = refl;
      others = λ j ne. get-put_ne j id _ t ne;
    },
  )
  write_found-IsSynced id asset r t (some (k, p)) e = (
    k,
    update_repair process_content_images strip_tags asset r p,
    record {
      stored = get-put_self k _ t;
      of_ticket = find_newest_test _ t k p e;
      of_asset = refl;
      of_status = refl;
      others = λ j ne. get-put_ne j k _ t ne;
    },
  )

  sync-write_found :
      (id asset : ℕ) (r : AccessRequest) (t : Table AssetRepair)
      → r.request_type ≡ asset_repair
      → r.asset ≡ some asset
      → sync_asset_repair process_content_images strip_tags id r t
        ≡ write_found process_content_images strip_tags id asset r t
            (find_newest (λ p. same_ticket p.ticket_reference r.ticket_number) t)
  unfolding sync_asset_repair
  sync-write_found id asset r t e a =
      let write = write_repair process_content_images strip_tags id in
      ap (λ q. if is_asset_repair q then write r.asset r t else t) e ∙ ap (λ o. write o r t) a

  pub sync-IsSynced :
      (id asset : ℕ) (r : AccessRequest) (t : Table AssetRepair)
      → r.request_type ≡ asset_repair
      → r.asset ≡ some asset
      → (k : ℕ) × (p : AssetRepair) × IsSynced asset r t
          (sync_asset_repair process_content_images strip_tags id r t)
          k
          p
  sync-IsSynced id asset r t e a =
      rw (sync-write_found id asset r t e a) (write_found-IsSynced id asset r t _ refl)

  write_row_ok :
      (env : Env) (k : ℕ) (r : AccessRequest) (db : Db)
      → (write_row process_content_images strip_tags env k r db).0 ≡ ok tt
      → (write_row process_content_images strip_tags env k r db).1.repairs
        ≡ sync_asset_repair process_content_images strip_tags env.new_id r db.repairs
  unfolding write_row
  write_row_ok env k r db h = ground arith

  -- A save of a repair request that succeeds leaves a repair for its ticket with the asset and the
  -- status of the request, and no other repair changes.
  pub save-IsSynced :
      (env : Env) (k asset : ℕ) (r : AccessRequest) (db : Db)
      → r.request_type ≡ asset_repair
      → r.asset ≡ some asset
      → (save process_content_images strip_tags env k r db).0 ≡ ok tt
      → (j : ℕ) × (p : AssetRepair) × IsSynced asset r db.repairs
          (save process_content_images strip_tags env k r db).1.repairs
          j
          p
  unfolding save
  save-IsSynced env k asset r db e a done =
      let row : AccessRequest = prepare process_content_images strip_tags env r in
      let (ticket, status, same_asset, type) =
        prepare_keeps process_content_images strip_tags env r in
      let (j, p, s) = sync-IsSynced env.new_id asset row db.repairs (type ∙ e) (same_asset ∙ a) in
      (
        j,
        p,
        subst (λ t. IsSynced asset r db.repairs t j p) (sym (write_row_ok env k row db done))
            (IsSynced-same asset row r db.repairs _ j p ticket status s),
      )
