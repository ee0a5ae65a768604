-- ===== src/Onboarding/Notify.antt =====
-- `send_it_asset_assignment_email` (onboarding/signals.py): when the IT team gets the mail about an
-- employee.
use optima_management.Base.{
  some-eq, ℕ, ◌≡◌, ◌⊎◌, inl, inr, refl, sym, Bool, true, false, Option, none, some, ◌∷◌, arith,
  if◌then◌else◌,
}
use mathlib.Core.Path.{subst}
use optima_management.Base.Table.{Table, get, put, get-put_self}
use optima_management.Onboarding.{
  Employee, Staff, has_details, active_emails, is_nil, set_notified, send_it_asset_assignment_email,
}

abbrev sent_state : ℕ → Staff → Staff
sent_state id s = record s {
  employees = set_notified id (get id s.employees) s.employees;
  outbox = active_emails s.supporters ∷ s.outbox;
}

send-cases :
    (delivered : Bool) (id : ℕ) (e : Employee) (s : Staff)
    → (send_it_asset_assignment_email delivered id e s ≡ s)
      ⊎ ((has_details e ≡ true)
          × (is_nil (active_emails s.supporters) ≡ false)
          × (send_it_asset_assignment_email delivered id e s ≡ sent_state id s))
unfolding send_it_asset_assignment_email
send-cases delivered id e s = ground arith

flagged :
    (id : ℕ) (t : Table Employee) (o : Option Employee) (e : Employee)
    → o ≡ some e
    → e.is_deleted ≡ false
    → get id (set_notified id o t) ≡ some (record e { it_notification_sent = true })
unfolding set_notified
flagged id t none e q d = cc
flagged id t (some x) e q d =
    let e' = record e { it_notification_sent = true } in
    subst (λ y. get id (set_notified id (some y) t) ≡ some e') (sym (some-eq q))
      (subst (λ b. get id (if b then t else put id e' t) ≡ some e') (sym d) (get-put_self id e' t))

-- What the receiver has done when a mail went out.
unfoldable pub Notified : ℕ → Employee → Staff → Staff → Type 0
Notified id e s s' =
    (e' : Employee) × (get id s'.employees ≡ some e')
    × (has_details e ≡ true)
    × (s'.outbox ≡ active_emails s.supporters ∷ s.outbox)
    × ((delivered : Bool) (s'' : Staff) → send_it_asset_assignment_email delivered id e' s'' ≡ s'')

flag_stops :
    (delivered : Bool) (id : ℕ) (e : Employee) (s : Staff)
    → e.it_notification_sent ≡ true
    → send_it_asset_assignment_email delivered id e s ≡ s
unfolding send_it_asset_assignment_email
flag_stops delivered id e s h = ground (arith, h)

sent_state-Notified :
    (id : ℕ) (e : Employee) (s : Staff)
    → get id s.employees ≡ some e
    → e.is_deleted ≡ false
    → has_details e ≡ true
    → Notified id e s (sent_state id s)
unfolding Notified
sent_state-Notified id e s g d details = (
  record e { it_notification_sent = true },
  flagged id s.employees (get id s.employees) e g d,
  details,
  refl,
  λ delivered s''. flag_stops delivered id _ s'' refl,
)

send_delivered :
    (id : ℕ) (e : Employee) (s : Staff)
    → e.it_notification_sent ≡ false
    → has_details e ≡ true
    → is_nil (active_emails s.supporters) ≡ false
    → send_it_asset_assignment_email true id e s ≡ sent_state id s
unfolding send_it_asset_assignment_email
send_delivered id e s f details n = ground (arith, f, details, n)

-- For an employee that is stored and not deleted, the receiver changes nothing, or it mails the
-- active supporters, which it does only with the department, the position and the type given; the
-- stored row is then flagged, so that the receiver does nothing when that row is saved again.
pub send-Notified :
    (delivered : Bool) (id : ℕ) (e : Employee) (s : Staff)
    → get id s.employees ≡ some e
    → e.is_deleted ≡ false
    → (send_it_asset_assignment_email delivered id e s ≡ s)
      ⊎ Notified id e s (send_it_asset_assignment_email delivered id e s)
send-Notified delivered id e s g d = elim (send-cases delivered id e s) [
  | inl same ↦ inl same
  | inr (details, active, q) ↦
      inr (subst (Notified id e s) (sym q) (sent_state-Notified id e s g d details))
]

-- The receiver does mail, and flags the row: for an employee that is stored and not deleted, with
-- the department, the position and the type given and no mail noted, where a supporter is active
-- and the mail goes out.
pub send_mails-Notified :
    (id : ℕ) (e : Employee) (s : Staff)
    → get id s.employees ≡ some e
    → e.is_deleted ≡ false
    → e.it_notification_sent ≡ false
    → has_details e ≡ true
    → is_nil (active_emails s.supporters) ≡ false
    → Notified id e s (send_it_asset_assignment_email true id e s)
send_mails-Notified id e s g d f details n =
    subst (Notified id e s) (sym (send_delivered id e s f details n))
      (sent_state-Notified id e s g d details)
