-- ===== src/Examples/Deals.antt =====
-- Examples for the deals of the admin (crm).
use optima_management.Base.{ℕ, zero, suc, ◌≡◌, refl, true, false, none, some, [], ◌∷◌, inr}
use optima_management.Crm.Types.{Text}
use optima_management.Crm.Deals.{Stage, ClosingReason, Deal, Changed, Desk, save_model, sign}
use optima_management.Crm.Deals.Saved.{is_dated}
use optima_management.Crm.Deals.Served.{save_model_closed}

abbrev first_letters : Text → ℕ → Text
first_letters [] n = []
first_letters (c ∷ t) zero = []
first_letters (c ∷ t) (suc n) = c ∷ first_letters t n

abbrev first_stage : Stage
first_stage = record {
  id = 1;
  department = some 2;
  default = true;
  second_default = false;
  success_stage = false;
  conditional_success_stage = false;
}

abbrev won_stage : Stage
won_stage = record first_stage { id = 2; default = false; success_stage = true }

abbrev won : ClosingReason
won = record { id = 1; department = 2; success_reason = true }

abbrev desk : Desk
desk = record {
  user = 5;
  username = b'A' ∷ b'n' ∷ [];
  now = 900;
  today = 9;
  stages = first_stage ∷ won_stage ∷ [];
  reasons = won ∷ [];
  department_of = λ _. some 2;
}

abbrev changed : Changed
changed = record {
  next_step = true;
  closing_reason = false;
  stage = false;
  active = false;
  relevant = true;
  owner = true;
}

abbrev deal : Deal
deal = record {
  next_step = b'c' ∷ [];
  workflow = [];
  department = some 2;
  stage = none;
  stages_dates = [];
  closing_reason = none;
  active = true;
  relevant = false;
  is_new = true;
  owner = some 6;
  modified_by = none;
  lead_owner = some none;
  closing_date = none;
  win_closing_date = none;
}

-- A deal of another user, found irrelevant, is closed with its step signed.
abbrev saved : Deal
saved = record deal {
  next_step = b'c' ∷ b' ' ∷ b'(' ∷ b'A' ∷ b'n' ∷ b')' ∷ [];
  workflow = (9, b'c' ∷ b' ' ∷ b'(' ∷ b'A' ∷ b'n' ∷ b')' ∷ []) ∷ [];
  stage = some first_stage;
  active = false;
  modified_by = some 5;
  lead_owner = some (some 6);
  closing_date = some 9;
}

saved_runs : save_model first_letters desk changed true deal ≡ some saved
unfolding save_model sign
saved_runs = refl

deal_closed :
    (o : Deal) × (save_model first_letters desk changed true deal ≡ some o) × (is_dated o ≡ true)
deal_closed = save_model_closed first_letters desk changed true deal (refl, refl, refl) (inr refl)
