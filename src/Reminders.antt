-- ===== src/Reminders.antt =====
-- `send_remainders` (common/utils/reminders_sender.py) over the reminders of common/models.py. Parameters:
-- which users have an address, which objects have a page of the site (`reverse`), and when the mail
-- server refuses the mail to the administrators, whose `fail_silently` is false; the mail to the owner
-- goes to a queue. Times, users and the objects are numbers; the texts of messages are left out.
pub mod Once
pub mod Blocked
pub mod Forms
use optima_management.Base.{
  ℕ, Bool, true, false, not, ◌&&◌, Option, none, some, List, [], ◌∷◌, ◌++◌, ◌==◌, leb,
  if◌then◌else◌,
}
use optima_management.Base.Table.{Table}

pub record Reminder : Type 0 where
  pub content_object : ℕ
  pub owner : Option ℕ
  pub reminder_date : ℕ
  pub active : Bool
  pub send_notification_email : Bool

-- The key of a reminder stands in what is sent for it: a message to its owner, a mail to the owner,
-- or a mail to the administrators where the owner has no address, which the server may refuse.
pub data Sent : Type 0 where
  message mail no_address refused_mail : ℕ → Sent

-- `none` is an object that is gone; otherwise its `remind_me`.
abbrev pub Objects : Type 0
Objects = ℕ → Option Bool

unfoldable pub forget : ℕ → Objects → Objects
forget k objects j = if j == k then some false else objects j

-- `active=True, reminder_date__lte=now`
abbrev pub is_due : ℕ → Reminder → Bool
is_due now r = r.active && leb r.reminder_date now

-- How a run ends: whether it raised nothing, the rows, the objects, and what was sent.
abbrev pub Ended : Type 0
Ended = Bool × (Table Reminder × (Objects × List Sent))

module _ (has_email has_page : ℕ → Bool) (refuses : ℕ → ℕ → Bool) where
  unfoldable pub sent_for : ℕ → ℕ → Reminder → List Sent
  sent_for k owner r =
      message k
      ∷ (if r.send_notification_email
          then (if has_email owner then mail k ∷ [] else no_address k ∷ [])
          else [])

  -- The row behind its round.
  unfoldable pub settled : ℕ → Reminder → Reminder
  settled owner r = record r {
    active = false;
    send_notification_email =
        if r.send_notification_email then (if has_email owner then false else true) else false;
  }

  abbrev pub add_round : ℕ → Reminder → List Sent → Ended → Ended
  add_round k r sent (ok, (rows, (objects, later))) =
      (ok, ((k, r) ∷ rows, (objects, sent ++ later)))

  -- The mail to the administrators raises.
  unfoldable pub is_refused : ℕ → ℕ → ℕ → Reminder → Bool
  is_refused now k owner r = r.send_notification_email && (not (has_email owner) && refuses now k)

  -- A round that raises: the row and those behind it are left as they are.
  abbrev pub stopped : ℕ → Reminder → Table Reminder → Objects → List Sent → Ended
  stopped k r rows objects sent = (false, ((k, r) ∷ rows, (objects, sent)))

  -- The round of a due reminder. Without an object, its page or an owner it raises before the message,
  -- and a refused mail raises behind the message.
  unfoldable pub remind :
      ℕ
      → ℕ
      → Reminder
      → Table Reminder
      → Objects
      → Option Bool
      → Option ℕ
      → (Objects → Ended)
      → Ended
  unfolding sent_for settled forget is_refused
  remind now k r rows objects none owner rest = stopped k r rows objects []
  remind now k r rows objects (some flag) none rest = stopped k r rows objects []
  remind now k r rows objects (some flag) (some owner) rest =
      if not (has_page r.content_object)
      then stopped k r rows objects []
      else if is_refused now k owner r
      then stopped k r rows objects (message k ∷ refused_mail k ∷ [])
      else add_round k (settled owner r) (sent_for k owner r)
          (rest (if flag then forget r.content_object objects else objects))

  unfoldable pub send_remainders : ℕ → Table Reminder → Objects → Ended
  unfolding remind
  send_remainders now [] objects = (true, ([], (objects, [])))
  send_remainders now ((k, r) ∷ rows) objects =
      let rest = send_remainders now rows in
      if is_due now r
      then remind now k r rows objects (objects r.content_object) r.owner rest
      else add_round k r [] (rest objects)
