-- ===== src/Crm/Deals/Saved.antt =====
-- What holds of a deal that the admin has saved (crm/site/dealadmin.py).
use optima_management.Base.{
  ℕ, ◌-◌, ◌≤◌, ◌≡◌, ◌>>=◌, refl, ap, Bool, true, false, not, ◌&&◌, ◌⊎◌, inl, inr, Option, none,
  some, ◌++◌, arith, ltb, is_some, if◌then◌else◌, if-both, if_true, ◌==◌, Bool-cases,
}
use mathlib.Core.Path.{subst}
use optima_management.Base.Lists.{length, length-append}
use optima_management.Crm.Types.{Text}
use optima_management.Crm.Matching.Linked.{AllSome}
use optima_management.Crm.Deals.{
  fill_with, close_with, switch_to, second_stage, leave_from, is_success, Stage, ClosingReason,
  Deal, Changed, Desk, signature, change_stage_data, fill_stage, win, close_for, close, move,
  switch, drop_irrelevant, pass_on, set_owner, leave_default, take, sign, note_step, save_model,
}

-- A signed step fits into the field, where the signature does and the truncation keeps its bound.
pub length-sign :
    (truncatechars : Text → ℕ → Text) (d : Desk) (t : Text)
    → ((s : Text) (n : ℕ) → length (truncatechars s n) ≤ n)
    → length (signature d) ≤ 250
    → length (sign truncatechars d t) ≤ 250
unfolding sign
length-sign truncatechars d t h b = elim (Bool-cases (ltb 250 (length (t ++ signature d)))) [
  | inl long ↦
      let size = length-append t (signature d) in
      let n = length t - (length (t ++ signature d) - 250) in
      let cut = h t n in
      let whole = length-append (truncatechars t n) (signature d) in
      rw long (omega (arith, size, cut, whole, b))
  | inr short ↦ rw short (ground arith)
]

-- A deal that is not active has a closing date.
abbrev pub is_dated : Deal → Bool
is_dated o = if o.active then true else is_some o.closing_date

abbrev Dated : Deal → Type 0
Dated o = is_dated o ≡ true

-- Where the form has changed the flag, or the deal is dated.
abbrev Ready : Changed → Deal → Type 0
Ready ch o = (ch.active ≡ true) ⊎ Dated o

fill_stage-Ready :
    (d : Desk) (ch : Changed) (o : Deal) → Ready ch o → AllSome (Ready ch) (fill_stage d o)
unfolding fill_stage
fill_stage-Ready d ch o h = if-both (AllSome (Ready ch)) (is_some o.stage) (some o) _ h (with _)
  where
    with : (s : Option Stage) → AllSome (Ready ch) (fill_with o s)
    with none = unfold fill_with in tt
    with (some s) = unfold fill_with in h

note_step-Ready :
    (truncatechars : Text → ℕ → Text) (d : Desk) (ch : Changed) (o : Deal)
    → Ready ch o
    → Ready ch (note_step truncatechars d ch o)
unfolding note_step
note_step-Ready truncatechars d ch o h = if-both (Ready ch) ch.next_step _ o h h

win-Dated : (d : Desk) (o : Deal) (s : Option Stage) → Dated o → AllSome Dated (win d o s)
unfolding win change_stage_data
win-Dated d o none h = tt
win-Dated d o (some s) h = h

close_with-Dated :
    (d : Desk) (c : ClosingReason) (o : Deal) (r : Option ClosingReason)
    → Dated o
    → AllSome Dated (close_with d c o r)
unfolding close_with
close_with-Dated d c o none h = tt
close_with-Dated d c o (some r) h =
    if-both (AllSome Dated) (c.id == r.id) _ (some o) (win-Dated d o _ h) h

close_for-Dated : (d : Desk) (c : Option ClosingReason) (o : Deal) → AllSome Dated (close_for d c o)
unfolding close_for
close_for-Dated d none o = refl
close_for-Dated d (some c) o =
    close_with-Dated d c (record o { active = false; closing_date = some d.today }) _ refl

AllSome-inr : (ch : Changed) (o : Option Deal) → AllSome Dated o → AllSome (Ready ch) o
AllSome-inr ch none h = tt
AllSome-inr ch (some o) h = inr h

close-Ready : (d : Desk) (ch : Changed) (o : Deal) → Ready ch o → AllSome (Ready ch) (close d ch o)
unfolding close
close-Ready d ch o h =
    if-both (AllSome (Ready ch)) ch.closing_reason _ (some o)
      (AllSome-inr ch _ (close_for-Dated d o.closing_reason o)) h

move-Ready : (d : Desk) (ch : Changed) (o : Deal) → Ready ch o → Ready ch (move d ch o)
unfolding move change_stage_data
move-Ready d ch o h =
    if-both (Ready ch) ch.stage _ o (if-both (Ready ch) (is_success d o o.stage) _ _ h h) h

switch_to-Dated : (d : Desk) (b : Bool) (o : Deal) → o.active ≡ b → Dated (switch_to b d o)
unfolding switch_to
switch_to-Dated d true o e = ap (λ b. if b then true else is_some o.closing_date) e
switch_to-Dated d false o e = if-both (λ b. b ≡ true) o.active true true refl refl

switch-Dated : (d : Desk) (ch : Changed) (o : Deal) → Ready ch o → Dated (switch d ch o)
unfolding switch
switch-Dated d ch o (inl e) = if_true Dated ch.active _ o e (switch_to-Dated d o.active o refl)
switch-Dated d ch o (inr h) = if-both Dated ch.active _ o (switch_to-Dated d o.active o refl) h

drop_irrelevant-Dated :
    (d : Desk) (ch : Changed) (o : Deal) → Dated o → Dated (drop_irrelevant d ch o)
unfolding drop_irrelevant
drop_irrelevant-Dated d ch o h = if-both Dated (ch.relevant && not o.relevant) _ o refl h

pass_on-Dated : (ch : Changed) (o : Deal) → Dated o → Dated (pass_on ch o)
unfolding pass_on
pass_on-Dated ch o h = if-both Dated ch.owner _ o h h

second_stage-Dated : (o : Deal) (u : Option Stage) → Dated o → Dated (second_stage o u)
unfolding second_stage
second_stage-Dated o none h = h
second_stage-Dated o (some u) h = h

leave_from-Dated :
    (d : Desk) (o : Deal) (s t : Option Stage) → Dated o → AllSome Dated (leave_from d o s t)
unfolding leave_from
leave_from-Dated d o none t h = h
leave_from-Dated d o (some s) none h = tt
leave_from-Dated d o (some s) (some t) h =
    if-both Dated (s.id == t.id) _ o (second_stage-Dated o _ h) h

leave_default-Dated :
    (d : Desk) (change : Bool) (o : Deal) → Dated o → AllSome Dated (leave_default d change o)
unfolding leave_default
leave_default-Dated d change o h =
    if-both (AllSome Dated) change _ (some o) (leave_from-Dated d o o.stage _ h) h

AllSome-bind :
    (P Q : Deal → Type 0) (o : Option Deal) (f : Deal → Option Deal)
    → AllSome P o
    → ((a : Deal) → P a → AllSome Q (f a))
    → AllSome Q (o >>= f)
AllSome-bind P Q none f h k = tt
AllSome-bind P Q (some a) f h k = k a h

saved_all :
    (truncatechars : Text → ℕ → Text) (d : Desk) (ch : Changed) (change : Bool) (o : Deal)
    → Ready ch o
    → AllSome Dated (save_model truncatechars d ch change o)
unfolding save_model take set_owner
saved_all truncatechars d ch change o h =
    AllSome-bind (Ready ch) Dated (fill_stage d o) _ (fill_stage-Ready d ch o h) (λ o1 h1.
      AllSome-bind (Ready ch) Dated (close d ch (note_step truncatechars d ch o1)) _
        (close-Ready d ch _ (note_step-Ready truncatechars d ch o1 h1))
        (λ o2 h2.
          AllSome-bind Dated Dated _ _
            (leave_default-Dated d change _ (
              pass_on-Dated ch _
                (drop_irrelevant-Dated d ch _ (switch-Dated d ch _ (move-Ready d ch o2 h2)))))
            (λ o3 h3. h3)))

-- A deal that `save_model` returns has a closing date or is active, where the deal of the form has
-- one, is active, or the form has changed the flag.
pub save_model_dated :
    (truncatechars : Text → ℕ → Text) (d : Desk) (ch : Changed) (change : Bool) (o o' : Deal)
    → (ch.active ≡ true) ⊎ (is_dated o ≡ true)
    → save_model truncatechars d ch change o ≡ some o'
    → is_dated o' ≡ true
save_model_dated truncatechars d ch change o o' h e =
    subst (AllSome Dated) e (saved_all truncatechars d ch change o h)
