-- ===== src/ResourceRequests/Created.antt =====
-- A new delivery request gets its token and the PMO its mail (resource_requests/signals.py and
-- utils.py).
use optima_management.Base.{
  ℕ, ◌+◌, ◌*◌, String, Bool, true, false, Option, none, some, List, [], ◌∷◌, truthy, if◌then◌else◌,
}
use optima_management.Base.Table.{put}
use optima_management.ResourceRequests.Types.{
  DeliveryRequest, Db, Env, Settings, Mail, approval_required,
}

-- `timedelta(days=15)`
abbrev pub fifteen_days : ℕ
fifteen_days = 15 * 24 * 60 * 60

-- A token is true in a Python condition.
abbrev pub has_token : Option String → Bool
has_token none = false
has_token (some s) = truthy s

-- `encode` is the base64 text of a key and an identifier.
module _ (encode : ℕ → String → String) where
  unfoldable pub generate_approval_token : Env → ℕ → String
  generate_approval_token env id = encode id env.uuid

  -- `if not delivery_request.approval_token`, which both functions begin with: the instance, and the
  -- tables. The instance agrees with its row.
  unfoldable pub ensure_token : Env → ℕ → DeliveryRequest → Db → DeliveryRequest × Db
  unfolding generate_approval_token
  ensure_token env id d db =
      let d' : DeliveryRequest = record d {
        approval_token = some (generate_approval_token env id);
        approval_token_expiry = some (env.now + fifteen_days);
      } in
      if has_token d.approval_token
      then (d, db)
      else (d', record db { deliveries = put id d' db.deliveries })

  unfoldable pub send_pmo_approval_request :
      Settings → Env → ℕ → DeliveryRequest → Db → Db × List Mail
  unfolding ensure_token
  send_pmo_approval_request settings env id d db = (
    (ensure_token env id d db).1,
    if settings.request_template then approval_required settings.pmo_emails ∷ [] else [],
  )

  -- `post_save`, behind the write of the row.
  unfoldable pub handle_delivery_request_save :
      Settings → Env → Bool → ℕ → DeliveryRequest → Db → Db × List Mail
  unfolding send_pmo_approval_request
  handle_delivery_request_save settings env created id d db =
      if created
      then (let (d', db') = ensure_token env id d db in
          send_pmo_approval_request settings env id d' db')
      else (db, [])

  -- `save()` of a new row, with the signal.
  unfoldable pub create_delivery_request :
      Settings → Env → ℕ → DeliveryRequest → Db → Db × List Mail
  unfolding handle_delivery_request_save
  create_delivery_request settings env id d db =
      handle_delivery_request_save settings env true id d
        (record db { deliveries = put id d db.deliveries })
