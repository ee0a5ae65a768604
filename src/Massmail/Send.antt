-- ===== src/Massmail/Send.antt =====
-- The loop of `send_massmail` over the mail accounts of one mailing (massmail/utils/sendmassmail.py),
-- with `get_recipient_ids`, `_get_masscontact`, `get_recipient`, `report` and `counter_increment`.
-- What the mail server answers is a parameter. Days are numbers; the report texts are left out.
use optima_management.Base.{
  ℕ, ◌+◌, ◌-◌, Bool, false, ◌&&◌, Option, none, some, List, [], ◌∷◌, ◌==◌, ltb, if◌then◌else◌,
  opt_eq,
}
use optima_management.Base.Lists.{elem}
use optima_management.Base.IdList.{parse_ids}
use optima_management.Massmail.MailingOut.{
  MailingOut, active_but_error, done, remove_recipient_ids, move_to_successful_ids,
  move_to_failed_ids,
}

-- massmail/settings.py
abbrev pub emails_per_day : ℕ
emails_per_day = 94

-- The fields of `EmailAccount` that the loop reads or writes.
pub record EmailAccount : Type 0 where
  pub id : ℕ
  pub massmail : Bool
  pub today_date : Option ℕ
  pub today_count : ℕ

-- A `MassContact` of the mailing's content type; `present` says that its object still exists.
pub record MassContact : Type 0 where
  pub object_id : ℕ
  pub email_account : Option ℕ
  pub massmail : Bool
  pub present : Bool

-- `msg.send()`: it returns, the server refuses the account, or it raises anything else.
pub data Outcome : Type 0 where
  sent account_refused failed : Outcome

pub record Run : Type 0 where
  pub mailing : MailingOut
  pub account : EmailAccount
  pub contacts : List MassContact

-- `_get_masscontact`: the first contact of the account among the recipients.
unfoldable pub get_masscontact : List ℕ → ℕ → List MassContact → Option MassContact
get_masscontact ids account [] = none
get_masscontact ids account (c ∷ cs) =
    if elem c.object_id ids && opt_eq c.email_account (some account) && c.massmail
    then some c
    else get_masscontact ids account cs

-- `mc.delete()`
unfoldable pub delete_contact : ℕ → Option ℕ → List MassContact → List MassContact
delete_contact object account [] = []
delete_contact object account (c ∷ cs) =
    if c.object_id == object && opt_eq c.email_account account
    then cs
    else c ∷ delete_contact object account cs

-- `get_recipient` for a contact whose object is gone; the database keeps the number of recipients
-- from falling below 0.
unfoldable pub drop_recipient : MassContact → Run → Option Run
drop_recipient c r = elim (remove_recipient_ids c.object_id r.mailing) [
  | none ↦ none
  | some m ↦ some (record r {
    mailing = record m { recipients_number = m.recipients_number - 1 };
    contacts = delete_contact c.object_id c.email_account r.contacts;
  })
]

-- `report` with `off`: the account is switched off, and the recipient still waits.
unfoldable pub report_off : Run → Run
report_off r = record r {
  account = record r.account { massmail = false };
  mailing = record r.mailing { status = active_but_error };
}

-- `report` without `off`: the recipient has failed. `none` is an exception that leaves the loop.
unfoldable pub report : ℕ → Run → Option Run
report id r = elim (move_to_failed_ids id (record r.mailing { status = active_but_error })) [
  | none ↦ none
  | some m ↦ some (record r { mailing = m })
]

unfoldable pub counter_increment : ℕ → MailingOut → EmailAccount → MailingOut × EmailAccount
counter_increment today m a = (
  record m { today_count = m.today_count + 1; sending_date = some today },
  record a { today_count = a.today_count + 1; today_date = some today },
)

-- What follows `msg.send()`; an exception of the move itself is reported like one of the server.
unfoldable pub after_move : ℕ → MassContact → Run → Option MailingOut → Option Run
unfolding report counter_increment
after_move today c r none = report c.object_id r
after_move today c r (some m) =
    let (m', a') = counter_increment today m r.account in
    some (record r { mailing = m'; account = a' })

unfoldable pub after_send : ℕ → Outcome → MassContact → Run → Option Run
unfolding report report_off after_move
after_send today sent c r = after_move today c r (move_to_successful_ids c.object_id r.mailing)
after_send today account_refused c r = some (report_off r)
after_send today failed c r = report c.object_id r

-- The contact that was found, if any.
unfoldable pub with_contact : ℕ → Outcome → Run → Option MassContact → Option Run
unfolding drop_recipient after_send
with_contact today o r none = some r
with_contact today o r (some c) = if c.present then after_send today o c r else drop_recipient c r

-- An account of another day starts its count again.
unfoldable pub fresh_account : ℕ → EmailAccount → EmailAccount
fresh_account today a = if opt_eq a.today_date (some today) then a else record a { today_count = 0 }

-- `ea.today_date == today and ea.today_count > EMAILS_PER_DAY`
unfoldable pub at_limit : ℕ → EmailAccount → Bool
at_limit today a = opt_eq a.today_date (some today) && ltb emails_per_day a.today_count

-- The body of the loop for one account; `ids` are the recipients that were read before the loop.
unfoldable pub serve : ℕ → List ℕ → Outcome → Run → Option Run
unfolding with_contact fresh_account at_limit get_masscontact
serve today ids o r =
    if at_limit today r.account
    then some r
    else with_contact today o (record r { account = fresh_account today r.account })
        (get_masscontact ids r.account.id r.contacts)

-- `get_recipient_ids`: a mailing without recipients is done.
unfoldable pub get_recipient_ids : MailingOut → Option (List ℕ × MailingOut)
get_recipient_ids m = elim (parse_ids m.recipient_ids) [
  | none ↦ none
  | some [] ↦ some ([], record m { status = done })
  | some (i ∷ is) ↦ some (i ∷ is, m)
]
