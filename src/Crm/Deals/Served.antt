-- ===== src/Crm/Deals/Served.antt =====
-- When the save of a deal meets no exception (crm/site/dealadmin.py).
use optima_management.Base.{
  ℕ, ◌≡◌, ◌⊎◌, arith, ◌>>=◌, refl, Bool, true, false, ◌&&◌, Option, none, some, ◌==◌, is_some,
  opt_eq, if-both, sym,
}
use mathlib.Core.Path.{subst}
use optima_management.Base.Lists.{filter}
use optima_management.Crm.Types.{Text}
use optima_management.Crm.Matching.{single}
use optima_management.Crm.Deals.{
  fill_with, close_with, switch_to, second_stage, leave_from, is_success, stages_with, Stage,
  ClosingReason, Deal, Changed, Desk, change_stage_data, fill_stage, win, close_for, close, move,
  switch, drop_irrelevant, pass_on, leave_default, note_step, save_model,
}
use optima_management.Crm.Deals.Saved.{is_dated, save_model_dated}

-- The department of a deal has one default stage, one success stage and one reason of success.
abbrev pub Served : Desk → Option ℕ → Type 0
Served d n =
    (is_some (single (filter (λ (s : Stage). s.default && opt_eq s.department n) d.stages)) ≡ true)
    × (is_some (single (filter (λ (s : Stage). s.success_stage && opt_eq s.department n) d.stages))
        ≡ true)
    × (is_some (
          single (
            filter (λ (r : ClosingReason). r.success_reason && opt_eq (some r.department) n)
              d.reasons))
        ≡ true)

-- The operation returns a deal of the department.
abbrev Saves : Option ℕ → Option Deal → Type 0
Saves n none = false ≡ true
Saves n (some o) = o.department ≡ n

module _ (d : Desk) (n : Option ℕ) (one : Served d n) where
  fill_with-Saves :
      (o : Deal) (s : Option Stage) → o.department ≡ n → is_some s ≡ true → Saves n (fill_with o s)
  unfolding fill_with
  fill_with-Saves o none h e = e
  fill_with-Saves o (some s) h e = h

  -- The rows of the department of the deal.
  served : (o : Deal) → o.department ≡ n → Served d o.department
  served o h = subst (Served d) (sym h) one

  fill_stage-Saves : (o : Deal) → o.department ≡ n → Saves n (fill_stage d o)
  unfolding fill_stage stages_with
  fill_stage-Saves o h =
      let (default, _, _) = served o h in
      if-both (Saves n) (is_some o.stage) (some o) _ h (fill_with-Saves o _ h default)

  win-Saves :
      (o : Deal) (s : Option Stage) → o.department ≡ n → is_some s ≡ true → Saves n (win d o s)
  unfolding win change_stage_data
  win-Saves o none h e = e
  win-Saves o (some s) h e = h

  close_with-Saves :
      (c : ClosingReason) (o : Deal) (r : Option ClosingReason)
      → o.department ≡ n
      → is_some r ≡ true
      → Saves n (close_with d c o r)
  unfolding close_with stages_with
  close_with-Saves c o none h e = e
  close_with-Saves c o (some r) h e =
      let (_, success, _) = served o h in
      if-both (Saves n) (c.id == r.id) _ (some o) (win-Saves o _ h success) h

  close_for-Saves :
      (c : Option ClosingReason) (o : Deal) → o.department ≡ n → Saves n (close_for d c o)
  unfolding close_for
  close_for-Saves none o h = h
  close_for-Saves (some c) o h =
      let (_, _, reason) = served o h in
      close_with-Saves c (record o { active = false; closing_date = some d.today }) _ h reason

  close-Saves : (ch : Changed) (o : Deal) → o.department ≡ n → Saves n (close d ch o)
  unfolding close
  close-Saves ch o h =
      if-both (Saves n) ch.closing_reason _ (some o) (close_for-Saves o.closing_reason o h) h

  leave_from-Saves :
      (o : Deal) (s t : Option Stage)
      → o.department ≡ n
      → is_some t ≡ true
      → Saves n (leave_from d o s t)
  unfolding leave_from
  leave_from-Saves o none t h e = h
  leave_from-Saves o (some s) none h e = e
  leave_from-Saves o (some s) (some t) h e =
      if-both (λ (o' : Deal). o'.department ≡ n) (s.id == t.id) _ o (second o _ h) h
    where
      second :
          (o' : Deal) (u : Option Stage) → o'.department ≡ n → (second_stage o' u).department ≡ n
      second o' none g = unfold second_stage in g
      second o' (some u) g = unfold second_stage in g

  leave_default-Saves :
      (change : Bool) (o : Deal) → o.department ≡ n → Saves n (leave_default d change o)
  unfolding leave_default stages_with
  leave_default-Saves change o h =
      let (default, _, _) = served o h in
      if-both (Saves n) change _ (some o) (leave_from-Saves o o.stage _ h default) h

  -- A part that raises nothing leaves the department.
  note_step-department :
      (truncatechars : Text → ℕ → Text) (ch : Changed) (o : Deal)
      → o.department ≡ n
      → (note_step truncatechars d ch o).department ≡ n
  unfolding note_step
  note_step-department truncatechars ch o h =
      if-both (λ (o' : Deal). o'.department ≡ n) ch.next_step _ o h h

  move-department : (ch : Changed) (o : Deal) → o.department ≡ n → (move d ch o).department ≡ n
  unfolding move change_stage_data
  move-department ch o h =
      if-both (λ (o' : Deal). o'.department ≡ n) ch.stage _ o
        (if-both (λ (o' : Deal). o'.department ≡ n) (is_success d o o.stage) _ _ h h) h

  switch-department : (ch : Changed) (o : Deal) → o.department ≡ n → (switch d ch o).department ≡ n
  unfolding switch
  switch-department ch o h =
      if-both (λ (o' : Deal). o'.department ≡ n) ch.active _ o (to o.active) h
    where
      to : (b : Bool) → (switch_to b d o).department ≡ n
      to true = unfold switch_to in h
      to false = unfold switch_to in h

  rest-department :
      (ch : Changed) (o : Deal)
      → o.department ≡ n
      → (pass_on ch (drop_irrelevant d ch (switch d ch (move d ch o)))).department ≡ n
  unfolding pass_on drop_irrelevant
  rest-department ch o h =
      let before = switch-department ch _ (move-department ch o h) in
      let dropped = if-both (λ (o' : Deal). o'.department ≡ n) _ _ _ before before in
      if-both (λ (o' : Deal). o'.department ≡ n) ch.owner _ _ dropped dropped

  Saves-bind :
      (o : Option Deal) (f : Deal → Option Deal)
      → Saves n o
      → ((a : Deal) → a.department ≡ n → is_some (f a) ≡ true)
      → is_some (o >>= f) ≡ true
  Saves-bind none f h k = h
  Saves-bind (some a) f h k = k a h

  saves :
      (truncatechars : Text → ℕ → Text) (ch : Changed) (change : Bool) (o : Deal)
      → o.department ≡ n
      → is_some (save_model truncatechars d ch change o) ≡ true
  unfolding save_model
  saves truncatechars ch change o h = Saves-bind (fill_stage d o) _ (fill_stage-Saves o h) (λ o1 h1.
      Saves-bind _ _ (close-Saves ch _ (note_step-department truncatechars ch o1 h1)) (λ o2 h2.
        Saves-bind _ _ (leave_default-Saves change _ (rest-department ch o2 h2)) (λ o3 h3. refl)))

found : (x : Option Deal) → is_some x ≡ true → (o : Deal) × (x ≡ some o)
found none e = ground arith
found (some o) e = (o, refl)

-- Where the department of the deal has one default stage, one success stage and one reason of
-- success, `save_model` raises no exception, and where the deal of the form has a closing date, is
-- active, or the form has changed the flag, the saved deal has a closing date or is active.
pub save_model_closed :
    (truncatechars : Text → ℕ → Text) (d : Desk) (ch : Changed) (change : Bool) (o : Deal)
    → Served d o.department
    → (ch.active ≡ true) ⊎ (is_dated o ≡ true)
    → (o' : Deal) × (save_model truncatechars d ch change o ≡ some o') × (is_dated o' ≡ true)
save_model_closed truncatechars d ch change o one h =
    let (o', e) = found _ (saves d o.department one truncatechars ch change o refl) in
    (o', e, save_model_dated truncatechars d ch change o o' h e)
