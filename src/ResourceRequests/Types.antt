-- ===== src/ResourceRequests/Types.antt =====
-- resource_requests/models.py: the rows that an approval touches, with the fields that it copies.
-- Texts that are only copied are `String`; the skill and the RI number are lists of code points,
-- since the database bounds them. Dates are days, times are seconds.
use optima_management.Base.{ℕ, String, Bool, Option, List}
use optima_management.Base.Table.{Table}

pub record ResourceRequest : Type 0 where
  -- The mail address of `request_owner`; empty where there is none.
  pub owner_email : String
  pub account_name : String
  pub business_unit : String

pub data Status : Type 0 where
  pending approved rejected : Status

-- `DeliveryRequest`, whose key stands in the table.
pub record DeliveryRequest : Type 0 where
  pub resource_request : ℕ
  pub competency_group : String
  pub primary_skill : List ℕ
  pub designation : String
  pub billing_title_in_sow : String
  pub operating_model : String
  pub frequency : String
  pub resource_required_date : ℕ
  pub location : String
  pub opportunity_probability : String
  pub business_type : String
  pub status : Status
  pub approval_token : Option String
  pub approval_token_expiry : Option ℕ

pub record PmoRequest : Type 0 where
  pub delivery_request : ℕ
  pub ri_no : List ℕ
  pub business_unit : String
  pub account_name : String
  pub competency_group : String
  pub billing_title_in_sow : String
  pub primary_skill : List ℕ
  pub designation : String
  pub location : String
  pub operating_model : String
  pub frequency : String
  pub resource_required_date : ℕ
  pub business_type : String
  pub opportunity_probability : String
  pub is_approved : Bool

pub record Db : Type 0 where
  pub resources : Table ResourceRequest
  pub deliveries : Table DeliveryRequest
  pub pmo_requests : List PmoRequest

-- What a call reads of its surroundings: the clock, read once per call, its month as
-- `strftime('%Y%m')` prints it, and a fresh `uuid4().hex`.
pub record Env : Type 0 where
  pub now : ℕ
  pub month : List ℕ
  pub uuid : String

-- The settings that the mails use, and whether each template can be rendered.
pub record Settings : Type 0 where
  pub it_support_email : String
  pub team_emails : List String
  pub pmo_emails : List String
  pub request_template : Bool
  pub status_template : Bool
  pub team_template : Bool

-- The mails that are handed to `send_email`, with their recipients.
pub data Mail : Type 0 where
  approval_required status_changed team_details : List String → Mail
