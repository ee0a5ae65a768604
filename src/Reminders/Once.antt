-- ===== src/Reminders/Once.antt =====
-- How often a reminder is sent (common/utils/reminders_sender.py).
use optima_management.Base.{
  as_number, ℕ, ◌+◌, ◌≡◌, Bool, true, ◌&&◌, Option, none, some, List, [], ◌∷◌, ◌++◌, ◌==◌, arith,
  if◌then◌else◌, Bool-cases, inl, inr,
}
use optima_management.Base.Table.{Table}
use optima_management.Reminders.{
  Reminder, Sent, message, mail, no_address, refused_mail, Objects, Ended, is_due, sent_for,
  settled, forget, is_refused, remind, send_remainders,
}

-- The active reminders with this key.
abbrev pub waiting : ℕ → Table Reminder → ℕ
waiting k [] = 0
waiting k ((j, r) ∷ rows) = (if j == k then as_number r.active else 0) + waiting k rows

-- The messages that the owner gets for it.
abbrev pub messages : ℕ → List Sent → ℕ
messages k [] = 0
messages k (message j ∷ xs) = (if j == k then 1 else 0) + messages k xs
messages k (_ ∷ xs) = messages k xs

messages-append :
    (k : ℕ) (xs ys : List Sent) → messages k (xs ++ ys) ≡ messages k xs + messages k ys
messages-append k [] ys = omega arith
messages-append k (message j ∷ xs) ys = omega (arith, messages-append k xs ys)
messages-append k (mail j ∷ xs) ys = messages-append k xs ys
messages-append k (no_address j ∷ xs) ys = messages-append k xs ys
messages-append k (refused_mail j ∷ xs) ys = messages-append k xs ys

-- The mails about it that the server refuses.
abbrev pub refusals : ℕ → List Sent → ℕ
refusals k [] = 0
refusals k (refused_mail j ∷ xs) = (if j == k then 1 else 0) + refusals k xs
refusals k (_ ∷ xs) = refusals k xs

refusals-append :
    (k : ℕ) (xs ys : List Sent) → refusals k (xs ++ ys) ≡ refusals k xs + refusals k ys
refusals-append k [] ys = omega arith
refusals-append k (refused_mail j ∷ xs) ys = omega (arith, refusals-append k xs ys)
refusals-append k (mail j ∷ xs) ys = refusals-append k xs ys
refusals-append k (no_address j ∷ xs) ys = refusals-append k xs ys
refusals-append k (message j ∷ xs) ys = refusals-append k xs ys

-- What is sent for a key is what no longer waits, and once more for each refusal.
pub record Spends (k : ℕ) (rows : Table Reminder) (x : Ended) : Type 0 where
  pub spent : messages k x.1.1.1 + waiting k x.1.0 ≡ waiting k rows + refusals k x.1.1.1

module _ (has_email has_page : ℕ → Bool) (refuses : ℕ → ℕ → Bool) (k : ℕ) where
  sent_for_lem :
      (j owner : ℕ) (r : Reminder)
      → messages k (sent_for has_email has_page refuses j owner r) ≡ (if j == k then 1 else 0)
  unfolding sent_for
  sent_for_lem j owner r = ground arith

  refusals-sent_for :
      (j owner : ℕ) (r : Reminder) → refusals k (sent_for has_email has_page refuses j owner r) ≡ 0
  unfolding sent_for
  refusals-sent_for j owner r = ground arith

  remind-Spends :
      (now j : ℕ) (r : Reminder) (rows : Table Reminder) (objects : Objects) (o : Option Bool)
      (owner : Option ℕ) (rest : Objects → Ended)
      → r.active ≡ true
      → ((objects' : Objects) → Spends k rows (rest objects'))
      → Spends k
          ((j, r) ∷ rows)
          (remind has_email has_page refuses now j r rows objects o owner rest)
  unfolding remind settled is_refused
  remind-Spends now j r rows objects none owner rest a h = record { spent = omega arith }
  remind-Spends now j r rows objects (some flag) none rest a h = record { spent = omega arith }
  remind-Spends now j r rows objects (some flag) (some owner) rest a h =
      let objects' : Objects = if flag then forget r.content_object objects else objects in
      record {
        spent = ground (
          arith,
          messages-append k (sent_for has_email has_page refuses j owner r) (rest objects').1.1.1,
          sent_for_lem j owner r,
          refusals-append k (sent_for has_email has_page refuses j owner r) (rest objects').1.1.1,
          refusals-sent_for j owner r,
          (h objects').spent,
          a,
        );
      }

  send_remainders-Spends :
      (now : ℕ) (rows : Table Reminder) (objects : Objects)
      → Spends k rows (send_remainders has_email has_page refuses now rows objects)
  unfolding send_remainders
  send_remainders-Spends now [] objects = record { spent = omega arith }
  send_remainders-Spends now ((j, r) ∷ rows) objects = elim (Bool-cases (is_due now r)) [
    | inl due ↦ rw due (
        remind-Spends now j r rows objects _ r.owner _ (ground (arith, due))
          (λ objects'. send_remainders-Spends now rows objects'))
    | inr later ↦
        rw later (record { spent = omega (arith, (send_remainders-Spends now rows objects).spent) })
  ]

  -- Runs at any times, each of which goes on where the one before has stopped.
  abbrev pub run_all : List ℕ → Table Reminder → Objects → Ended
  run_all [] rows objects = (true, (rows, (objects, [])))
  run_all (now ∷ times) rows objects =
      let (ok, (rows', (objects', sent))) =
        send_remainders has_email has_page refuses now rows objects in
      let (oks, (rows'', (objects'', later))) = run_all times rows' objects' in
      (ok && oks, (rows'', (objects'', sent ++ later)))

  -- Over any runs, those that raise included, the messages for a reminder and the times that it is
  -- active grow by one for each mail to the administrators about it that the server refuses, and else
  -- make the same sum.
  pub run_all-Spends :
      (times : List ℕ) (rows : Table Reminder) (objects : Objects)
      → Spends k rows (run_all times rows objects)
  run_all-Spends [] rows objects = record { spent = omega arith }
  run_all-Spends (now ∷ times) rows objects =
      let x = send_remainders has_email has_page refuses now rows objects in
      let y = run_all times x.1.0 x.1.1.0 in
      record {
        spent = omega (
          arith,
          messages-append k x.1.1.1 y.1.1.1,
          refusals-append k x.1.1.1 y.1.1.1,
          (send_remainders-Spends now rows objects).spent,
          (run_all-Spends times x.1.0 x.1.1.0).spent,
        );
      }
