-- ===== src/Crm/Deals.antt =====
-- `save_model` of `DealAdmin` (crm/site/dealadmin.py): the next step, the stage, the closing and the
-- owner of a deal. `truncatechars` is Django's; days, moments and keys are numbers.
pub mod Saved
pub mod Served
use optima_management.Base.{
  ℕ, ◌+◌, ◌-◌, Bool, true, false, not, ◌&&◌, ◌||◌, ◌>>=◌, Option, none, some, List, [], ◌∷◌, ◌++◌,
  ◌==◌, ltb, opt_eq, is_some, if◌then◌else◌,
}
use optima_management.Base.Lists.{length, filter, any, head?}
use optima_management.Crm.Types.{Text}
use optima_management.Crm.Matching.{single}

pub record Stage : Type 0 where
  pub id : ℕ
  pub department : Option ℕ
  pub default : Bool
  pub second_default : Bool
  pub success_stage : Bool
  pub conditional_success_stage : Bool

pub record ClosingReason : Type 0 where
  pub id : ℕ
  pub department : ℕ
  pub success_reason : Bool

pub record Deal : Type 0 where
  pub next_step : Text
  -- Its lines, each with its day.
  pub workflow : List (ℕ × Text)
  pub department : Option ℕ
  pub stage : Option Stage
  -- `stages_dates`: the days on which the stage changed, with the stage of each.
  pub stages_dates : List (ℕ × Option Stage)
  pub closing_reason : Option ClosingReason
  pub active : Bool
  pub relevant : Bool
  pub is_new : Bool
  pub owner : Option ℕ
  pub modified_by : Option ℕ
  -- The owner of its lead, where it has one.
  pub lead_owner : Option (Option ℕ)
  pub closing_date : Option ℕ
  pub win_closing_date : Option ℕ

-- `form.changed_data`
pub record Changed : Type 0 where
  pub next_step : Bool
  pub closing_reason : Bool
  pub stage : Bool
  pub active : Bool
  pub relevant : Bool
  pub owner : Bool

-- The user, the clock, and the rows that the queries read, in their order.
pub record Desk : Type 0 where
  pub user : ℕ
  pub username : Text
  pub now : ℕ
  pub today : ℕ
  pub stages : List Stage
  pub reasons : List ClosingReason
  -- `get_department_id`: the first department among the groups of a user.
  pub department_of : ℕ → Option ℕ

-- ` (username)`
abbrev pub signature : Desk → Text
signature d = b' ' ∷ b'(' ∷ d.username ++ b')' ∷ []

-- `obj.change_stage_data(...)`
unfoldable pub change_stage_data : ℕ → Deal → Deal
change_stage_data today o = record o { stages_dates = o.stages_dates ++ (today, o.stage) ∷ [] }

-- The stages of the deal's department with a flag.
unfoldable pub stages_with : (Stage → Bool) → Desk → Deal → List Stage
stages_with p d o = filter (λ (s : Stage). p s && opt_eq s.department o.department) d.stages

-- A deal without a stage takes the default one of its department; `none` is the exception of `get`.
unfoldable pub fill_with : Deal → Option Stage → Option Deal
fill_with o none = none
fill_with o (some s) = some (record o { stage = some s })

unfoldable pub fill_stage : Desk → Deal → Option Deal
unfolding stages_with fill_with
fill_stage d o =
    if is_some o.stage
    then some o
    else fill_with o (single (stages_with (λ (s : Stage). s.default) d o))

-- A reason that is the department's reason of success wins the deal.
unfoldable pub win : Desk → Deal → Option Stage → Option Deal
unfolding change_stage_data
win d o none = none
win d o (some s) = some (record (change_stage_data d.today (record o { stage = some s })) {
  win_closing_date = some d.now;
})

unfoldable pub close_with : Desk → ClosingReason → Deal → Option ClosingReason → Option Deal
unfolding win stages_with
close_with d c o none = none
close_with d c o (some r) =
    if c.id == r.id
    then win d o (single (stages_with (λ (s : Stage). s.success_stage) d o))
    else some o

unfoldable pub close_for : Desk → Option ClosingReason → Deal → Option Deal
unfolding close_with
close_for d none o = some (record o { active = true; closing_date = none })
close_for d (some c) o =
    close_with d c (record o { active = false; closing_date = some d.today })
      (single (
        filter (λ (r : ClosingReason). r.success_reason && opt_eq (some r.department) o.department)
          d.reasons))

-- `if 'closing_reason' in form.changed_data`
unfoldable pub close : Desk → Changed → Deal → Option Deal
unfolding close_for
close d ch o = if ch.closing_reason then close_for d o.closing_reason o else some o

unfoldable pub is_success : Desk → Deal → Option Stage → Bool
unfolding stages_with
is_success d o none = false
is_success d o (some s) =
    any (λ (t : Stage). t.id == s.id)
      (stages_with (λ (t : Stage). t.success_stage || t.conditional_success_stage) d o)

-- `if 'stage' in form.changed_data`
unfoldable pub move : Desk → Changed → Deal → Deal
unfolding change_stage_data is_success
move d ch o =
    if ch.stage
    then (let o' = change_stage_data d.today o in
        if is_success d o o.stage then record o' { win_closing_date = some d.now } else o')
    else o

-- `if 'active' in form.changed_data`
unfoldable pub switch_to : Bool → Desk → Deal → Deal
switch_to true d o = record o { relevant = true }
switch_to false d o = record o { closing_date = some d.today }

unfoldable pub switch : Desk → Changed → Deal → Deal
unfolding switch_to
switch d ch o = if ch.active then switch_to o.active d o else o

-- `if 'relevant' in form.changed_data and not obj.relevant`
unfoldable pub drop_irrelevant : Desk → Changed → Deal → Deal
drop_irrelevant d ch o =
    if ch.relevant && not o.relevant
    then record o { active = false; closing_date = some d.today }
    else o

-- A changed deal leaves the default stage; `none` is the exception of `get`.
unfoldable pub second_stage : Deal → Option Stage → Deal
second_stage o none = o
second_stage o (some u) = record o { stage = some u }

unfoldable pub leave_from : Desk → Deal → Option Stage → Option Stage → Option Deal
unfolding stages_with second_stage
leave_from d o none t = some o
leave_from d o (some s) none = none
leave_from d o (some s) (some t) = some (
    if s.id == t.id
    then second_stage o (head? (stages_with (λ (u : Stage). u.second_default) d o))
    else o)

unfoldable pub leave_default : Desk → Bool → Deal → Option Deal
unfolding stages_with leave_from
leave_default d change o =
    if change
    then leave_from d o o.stage (single (stages_with (λ (t : Stage). t.default) d o))
    else some o

-- `if 'owner' in form.changed_data`
unfoldable pub owner_of_lead : Option ℕ → Option (Option ℕ) → Option (Option ℕ)
owner_of_lead u none = none
owner_of_lead u (some v) = some u

unfoldable pub pass_on : Changed → Deal → Deal
unfolding owner_of_lead
pass_on ch o = if ch.owner then record o { lead_owner = owner_of_lead o.owner o.lead_owner } else o

-- `set_owner`
unfoldable pub set_owner : Desk → Deal → Deal
set_owner d o =
    let u = if is_some o.owner then o.owner else some d.user in
    record o {
      modified_by = some d.user;
      owner = u;
      department = if is_some o.department then o.department else u >>= d.department_of;
    }

-- `is_new`, and `set_owner`.
unfoldable pub take : Desk → Deal → Deal
unfolding set_owner
take d o = set_owner d (record o { is_new = o.is_new && not (opt_eq o.owner (some d.user)) })

module _ (truncatechars : Text → ℕ → Text) where
  -- A step of another user's deal is signed, in the 250 letters of the field.
  unfoldable pub sign : Desk → Text → Text
  sign d t =
      if ltb 250 (length (t ++ signature d))
      then truncatechars t (length t - (length (t ++ signature d) - 250)) ++ signature d
      else t ++ signature d

  unfoldable pub note_step : Desk → Changed → Deal → Deal
  unfolding sign
  note_step d ch o =
      if ch.next_step
      then (let t = if opt_eq o.owner (some d.user) then o.next_step else sign d o.next_step in
          record o { next_step = t; workflow = (d.today, t) ∷ o.workflow })
      else o

  -- `save_model`
  unfoldable pub save_model : Desk → Changed → Bool → Deal → Option Deal
  unfolding fill_stage note_step close move switch drop_irrelevant pass_on leave_default take
  save_model d ch change o = do
    o1 ← fill_stage d o
    o2 ← close d ch (note_step d ch o1)
    o3 ← leave_default d change (pass_on ch (drop_irrelevant d ch (switch d ch (move d ch o2))))
    some (take d o3)
