-- ===== src/Examples/Mailings.antt =====
-- Examples for the mailings (massmail).
use optima_management.Base.{
  ℕ, ◌==◌, ◌≡◌, refl, Bool, if◌then◌else◌, true, false, none, some, List, [], ◌∷◌,
}
use optima_management.Base.Lists.{All}
use optima_management.Base.IdList.{parse_ids, show_ids, parse_ids-show_ids}
use optima_management.Massmail.MailingOut.{
  MailingOut, MailingStatus, move_to_successful_ids, move_to_failed_ids, move_to_recipient_ids,
  Represents, tally, moves_conserve,
}
use optima_management.Massmail.Send.{EmailAccount, MassContact}
use optima_management.Massmail.Contacts.{fix_masscontacts, has_contact, any_wrong}
use optima_management.Massmail.Contacts.Fixed.{IsServing, others, fix_masscontacts-Fixed}
use optima_management.Massmail.Loop.{World}

abbrev mailing : MailingOut
mailing = record {
  owner = 1;
  content_type = 11;
  status = MailingStatus.active;
  recipients_number = 2;
  recipient_ids = show_ids (12 ∷ 15 ∷ []);
  successful_ids = show_ids [];
  failed_ids = show_ids (9 ∷ []);
  today_count = 0;
  sending_date = none;
}

mailing-Represents : Represents mailing (12 ∷ 15 ∷ []) [] (9 ∷ [])
mailing-Represents = record { recipient = refl; successful = refl; failure = refl }

ids_example : parse_ids (show_ids (12 ∷ 15 ∷ [])) ≡ some (12 ∷ 15 ∷ [])
ids_example = parse_ids-show_ids (12 ∷ 15 ∷ [])

moves_example :
    ((m' : MailingOut) × (w : List ℕ) × (s : List ℕ) × (move_to_successful_ids 12 mailing ≡ some m')
      × Represents m' w s (9 ∷ [])
      × ((j : ℕ) → tally j w s (9 ∷ []) ≡ tally j (12 ∷ 15 ∷ []) [] (9 ∷ [])))
    × ((m' : MailingOut) × (w : List ℕ) × (f : List ℕ) × (move_to_failed_ids 12 mailing ≡ some m')
        × Represents m' w [] f
        × ((j : ℕ) → tally j w [] f ≡ tally j (12 ∷ 15 ∷ []) [] (9 ∷ [])))
    × ((m' : MailingOut) × (w : List ℕ) × (move_to_recipient_ids mailing ≡ some m')
        × Represents m' w [] []
        × ((j : ℕ) → tally j w [] [] ≡ tally j (12 ∷ 15 ∷ []) [] (9 ∷ [])))
moves_example = moves_conserve 12 mailing (12 ∷ 15 ∷ []) [] (9 ∷ []) mailing-Represents refl

abbrev account : EmailAccount
account = record { id = 5; massmail = true; today_date = some 30; today_count = 94 }

abbrev contact : MassContact
contact = record { object_id = 12; email_account = some 5; massmail = true; present = true }

-- A second mailing of the same owner, who has the one account.
abbrev world : World
world = record {
  accounts = λ o. if o == 1 then account ∷ [] else [];
  queues = λ o. if o == 1 then some (5 ∷ []) else none;
  contacts = λ t. if t == 11 then contact ∷ [] else [];
  handled = [];
}

abbrev same : List ℕ → List ℕ
same ids = ids

abbrev in_order : List MailingOut → List MailingOut
in_order ms = ms

-- Recipient 12 has a contact with the account of somebody else, recipient 15 has none.
abbrev foreign : MassContact
foreign = record { object_id = 12; email_account = some 6; massmail = true; present = true }

abbrev owned : ℕ → Bool
owned a = a == 5

fixed_example :
    (cs' : List MassContact) × (queue' : List ℕ) × (fix_masscontacts same
        (λ id. true)
        owned
        (12 ∷ 15 ∷ [])
        (some (5 ∷ []))
        (foreign ∷ [])
      ≡ some (cs', some queue'))
    × All (λ id. has_contact id cs' ≡ true) (12 ∷ 15 ∷ [])
    × (any_wrong owned (12 ∷ 15 ∷ []) cs' ≡ false)
    × (others (12 ∷ 15 ∷ []) cs' ≡ others (12 ∷ 15 ∷ []) (foreign ∷ []))
    × IsServing owned queue'
fixed_example =
    fix_masscontacts-Fixed owned same (λ id. true) (12 ∷ 15 ∷ []) (5 ∷ []) (foreign ∷ [])
      (λ a is. refl) (record { accounts = refl; some_account = λ e. cc })
