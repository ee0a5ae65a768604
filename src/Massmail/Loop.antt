-- ===== src/Massmail/Loop.antt =====
-- One run of `send_massmail` (massmail/utils/sendmassmail.py): the mailings that wait, one for each
-- owner, and for each of them the accounts of its owner. What the mail server answers to each account
-- is a parameter, and so are the random order of the mailings and the order of a set. An exception
-- ends the run; what was saved before it stays.
use optima_management.Base.{
  ℕ, Bool, true, false, not, ◌||◌, Option, none, some, List, [], ◌∷◌, ◌++◌, ◌==◌, if◌then◌else◌,
  opt_eq,
}
use optima_management.Base.Lists.{filter, any}
use optima_management.Massmail.MailingOut.{MailingOut, active, active_but_error}
use optima_management.Massmail.Owners.{check_owners}
use optima_management.Massmail.Send.{
  EmailAccount, MassContact, Outcome, Run, serve, get_recipient_ids,
}
use optima_management.Massmail.Contacts.{fix_masscontacts}

-- The accounts and the queue of each owner, the contacts of each content type, and the mailings of
-- this run as the loop leaves them.
pub record World : Type 0 where
  pub accounts : ℕ → List EmailAccount
  pub queues : ℕ → Option (List ℕ)
  pub contacts : ℕ → List MassContact
  pub handled : List MailingOut

-- A function with another value at one place.
abbrev pub at {ℓ} : {A : Type ℓ} → ℕ → A → (ℕ → A) → ℕ → A
at k a f j = if j == k then a else f j

-- A mailing of another day starts its count again.
unfoldable pub fresh_mailing : ℕ → MailingOut → MailingOut
fresh_mailing today m =
    if opt_eq m.sending_date (some today) then m else record m { today_count = 0 }

-- The row of an account behind its round: only a mail and a refusal save it.
unfoldable pub stored : ℕ → EmailAccount → EmailAccount → EmailAccount
stored today before after =
    if opt_eq after.today_date (some today) || not after.massmail then after else before

-- How the loop over the accounts ends: whether it raised nothing, the accounts, the mailing, and the
-- contacts.
abbrev pub Ended : Type 0
Ended = Bool × (List EmailAccount × (MailingOut × List MassContact))

unfoldable pub after_account :
    ℕ
    → EmailAccount
    → List EmailAccount
    → MailingOut
    → List MassContact
    → (MailingOut → List MassContact → Ended)
    → Option Run
    → Ended
unfolding stored
after_account today a as' m cs rest none = (false, (a ∷ as', (m, cs)))
after_account today a as' m cs rest (some r) =
    let (ok, (bs, x)) = rest r.mailing r.contacts in (ok, (stored today a r.account ∷ bs, x))

-- `filter(owner=..., massmail=True)`; the other accounts of the owner are passed over.
unfoldable pub serve_account : ℕ → List ℕ → Outcome → Run → Option Run
unfolding serve
serve_account today ids o r = if r.account.massmail then serve today ids o r else some r

unfoldable pub serve_all :
    ℕ → List ℕ → (ℕ → Outcome) → List EmailAccount → MailingOut → List MassContact → Ended
unfolding serve_account after_account
serve_all today ids answers [] m cs = (true, ([], (m, cs)))
serve_all today ids answers (a ∷ as') m cs =
    after_account today a as' m cs (serve_all today ids answers as')
      (serve_account today ids (answers a.id) (record { mailing = m; account = a; contacts = cs }))

abbrev pub owns : ℕ → List EmailAccount → Bool
owns k = any (λ a. a.id == k)

unfoldable pub write_ended : MailingOut → World → Ended → Bool × World
write_ended m w (ok, (as', (m', cs))) = (
  ok,
  record w {
    accounts = at m.owner as' w.accounts;
    contacts = at m.content_type cs w.contacts;
    handled = w.handled ++ m' ∷ [];
  },
)

-- `status__in=['A', 'E']`
abbrev pub is_waiting : MailingOut → Bool
is_waiting m = elim m.status [ active ↦ true | active_but_error ↦ true | _ ↦ false ]

-- The next mailing, unless an exception has ended the run.
unfoldable pub go_on : (World → World) → Bool × World → World
go_on rest (ok, w) = if ok then rest w else w

module _ (order : List ℕ → List ℕ) (objects : ℕ → ℕ → Bool) (answers : ℕ → Outcome)
    (today : ℕ) where
  unfoldable pub serve_fixed :
      List ℕ → MailingOut → World → Option (List MassContact × Option (List ℕ)) → Bool × World
  unfolding serve_all write_ended
  serve_fixed ids m w none = (false, w)
  serve_fixed ids m w (some (cs, queue)) =
      write_ended m (record w { queues = at m.owner queue w.queues })
        (serve_all today ids answers (w.accounts m.owner) m cs)

  unfoldable pub send_to : MailingOut → World → Option (List ℕ × MailingOut) → Bool × World
  unfolding serve_fixed fix_masscontacts
  send_to m w none = (false, w)
  send_to m w (some ([], m')) = (true, record w { handled = w.handled ++ m' ∷ [] })
  send_to m w (some (i ∷ is, m')) = serve_fixed (i ∷ is) m' w (
      fix_masscontacts order (objects m'.content_type) (λ k. owns k (w.accounts m'.owner)) (i ∷ is)
        (w.queues m'.owner) (w.contacts m'.content_type))

  -- The body of the loop over the mailings.
  unfoldable pub send_mailing : MailingOut → World → Bool × World
  unfolding send_to fresh_mailing get_recipient_ids
  send_mailing m w = send_to m w (get_recipient_ids (fresh_mailing today m))

  unfoldable pub send_all : List MailingOut → World → World
  unfolding go_on send_mailing
  send_all [] w = w
  send_all (m ∷ ms) w = go_on (send_all ms) (send_mailing m w)

  unfoldable pub send_massmail :
      (List MailingOut → List MailingOut) → List MailingOut → World → World
  unfolding send_all check_owners
  send_massmail shuffle mailings w =
      send_all (check_owners (shuffle (filter is_waiting mailings))) w
