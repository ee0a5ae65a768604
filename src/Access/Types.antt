-- ===== src/Access/Types.antt =====
-- resource_management/models.py and assets/models.py: the rows that an access request touches.
-- Times are seconds and are signed, since a duration may be; tokens, mail addresses and texts are
-- only compared, and a ticket number is the list of its code points.
use optima_management.Base.{ℕ, String, Bool, Option, List}
use optima_management.Base.Int.{ℤ}
use optima_management.Base.Table.{Table}

pub data Priority : Type 0 where
  low medium high urgent : Priority

pub data Status : Type 0 where
  pending approval_required approver_approved approver_rejected approved rejected revoked : Status

pub data RequestType : Type 0 where
  new it asset_repair : RequestType

-- `AccessRequest`, whose key stands in the table. Foreign keys are numbers.
pub record AccessRequest : Type 0 where
  pub ticket_number : List ℕ
  pub user : ℕ
  pub asset : Option ℕ
  pub resource : Option ℕ
  pub access_level : Option ℕ
  pub priority : Priority
  pub justification : String
  pub duration : Option ℤ
  pub assigned_to : Option ℕ
  pub status : Status
  pub requires_approval : Bool
  pub notes : Option String
  pub approver_email : Option String
  pub approved_by : Option ℕ
  pub approved_at : Option ℤ
  pub requested_at : ℤ
  pub expires_at : Option ℤ
  pub approval_token : Option String
  pub approval_token_expiry : Option ℤ
  pub request_type : RequestType

-- `AccessHistory.action`, for the actions that the modelled handlers write.
pub data HistoryAction : Type 0 where
  was_approved was_rejected approval_requested approval_resent : HistoryAction
  ticket_assigned was_deleted : HistoryAction
  status_changed : Status → Status → HistoryAction

pub record AccessHistory : Type 0 where
  pub access_request : ℕ
  pub action : HistoryAction
  pub performed_by : Option ℕ

pub data RepairStatus : Type 0 where
  reported in_repair completed cancelled : RepairStatus

-- The fields of `AssetRepair` that the synchronisation reads or writes; the others keep their
-- defaults.
pub record AssetRepair : Type 0 where
  pub asset : ℕ
  pub status : RepairStatus
  pub issue_description : String
  pub ticket_reference : List ℕ
  pub notes : String

pub record Db : Type 0 where
  pub requests : Table AccessRequest
  pub repairs : Table AssetRepair
  pub history : List AccessHistory

-- What a call reads of its surroundings: the clock, read once per call, with its date as
-- `strftime('%Y%m%d')` prints it, a fresh `uuid4().hex`, and the key that the database gives to a
-- new row.
pub record Env : Type 0 where
  pub now : ℤ
  pub date : List ℕ
  pub uuid : String
  pub new_id : ℕ

-- How a call ends: with a value, or by an exception.
pub data Error : Type 0 where
  value_error integrity_error not_found : Error

pub data Result (A : Type 0) : Type 0 where
  ok : A → Result A
  raised : Error → Result A
