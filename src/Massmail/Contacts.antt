-- ===== src/Massmail/Contacts.antt =====
-- `fix_masscontacts` (massmail/utils/sendmassmail.py): before a mailing is sent, each recipient gets a
-- contact with a mail account of the owner of the mailing, the next one of the owner's queue.
pub mod Fixed
use optima_management.Base.{
  ℕ, Bool, true, false, not, ◌&&◌, Option, none, some, List, [], ◌∷◌, ◌++◌, ◌==◌, if◌then◌else◌,
}
use optima_management.Base.Lists.{elem, filter}
use optima_management.Massmail.Queue.{get_next}
use optima_management.Massmail.Send.{MassContact}

-- `owned` says which accounts belong to the owner of the mailing; a contact may have no account.
abbrev pub is_owned : (ℕ → Bool) → Option ℕ → Bool
is_owned owned none = false
is_owned owned (some a) = owned a

-- A contact of a recipient that the query set `wrong_masscontacts` finds.
abbrev pub is_wrong : (ℕ → Bool) → List ℕ → MassContact → Bool
is_wrong owned ids c = elem c.object_id ids && not (is_owned owned c.email_account)

unfoldable pub give : Option ℕ → MassContact → MassContact
give none c = c
give (some a) c = record c { email_account = some a }

-- The loop over `wrong_masscontacts`: the contacts, and the queue.
unfoldable pub fix_wrong :
    (ℕ → Bool) → List ℕ → List ℕ → List MassContact → List MassContact × List ℕ
unfolding give get_next
fix_wrong owned ids queue [] = ([], queue)
fix_wrong owned ids queue (c ∷ cs) =
    let (a, q) = get_next queue in
    let (fixed, q') = fix_wrong owned ids (if is_wrong owned ids c then q else queue) cs in
    ((if is_wrong owned ids c then give a c else c) ∷ fixed, q')

abbrev pub has_contact : ℕ → List MassContact → Bool
has_contact id [] = false
has_contact id (c ∷ cs) = if c.object_id == id then true else has_contact id cs

-- A set of ids, each once.
unfoldable pub distinct : List ℕ → List ℕ
distinct [] = []
distinct (i ∷ is) = if elem i is then distinct is else i ∷ distinct is

-- `MassContact.objects.create`, where the queue names an account; `objects` says which recipients
-- exist.
unfoldable pub new_contact : (ℕ → Bool) → ℕ → Option ℕ → List MassContact
new_contact objects id none = []
new_contact objects id (some a) =
    record { object_id = id; email_account = some a; massmail = true; present = objects id } ∷ []

-- The loop over `recipient_ids_without`.
unfoldable pub create_missing :
    (ℕ → Bool) → List ℕ → List ℕ → List MassContact → List MassContact × List ℕ
unfolding new_contact get_next
create_missing objects queue [] cs = (cs, queue)
create_missing objects queue (id ∷ ids) cs =
    let (a, q) = get_next queue in create_missing objects q ids (cs ++ new_contact objects id a)

abbrev pub any_wrong : (ℕ → Bool) → List ℕ → List MassContact → Bool
any_wrong owned ids [] = false
any_wrong owned ids (c ∷ cs) = if is_wrong owned ids c then true else any_wrong owned ids cs

-- `list(set(recipient_ids) - set(recipient_ids_with))`; `order` is the order of the set.
unfoldable pub without_contact : (List ℕ → List ℕ) → List ℕ → List MassContact → List ℕ
unfolding distinct
without_contact order ids cs = order (filter (λ id. not (has_contact id cs)) (distinct ids))

-- The owner's queue is read where it is needed; without one `none` stands for the exception.
unfoldable pub fix_masscontacts :
    (List ℕ → List ℕ)
    → (ℕ → Bool)
    → (ℕ → Bool)
    → List ℕ
    → Option (List ℕ)
    → List MassContact
    → Option (List MassContact × Option (List ℕ))
unfolding fix_wrong create_missing without_contact
fix_masscontacts order objects owned ids (some queue) cs =
    let (fixed, q) = fix_wrong owned ids queue cs in
    let (all', q') = create_missing objects q (without_contact order ids fixed) fixed in
    some (all', some q')
fix_masscontacts order objects owned ids none cs = elim (without_contact order ids cs) [
  | [] ↦ if any_wrong owned ids cs then none else some (cs, none)
  | i ∷ is ↦ none
]
