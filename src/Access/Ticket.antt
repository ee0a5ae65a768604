-- ===== src/Access/Ticket.antt =====
-- The numbering in `AccessRequest.save` (resource_management/models.py): a prefix, the date, and the
-- last number of that day plus one.
pub mod Order
use optima_management.Base.{
  ℕ, suc, ◌+◌, ◌-◌, ◌≡◌, Bool, true, false, ◌&&◌, Option, none, some, List, [], ◌∷◌, ◌++◌, ltb,
  ◌==◌, if◌then◌else◌,
}
use optima_management.Base.Lists.{length}
use optima_management.Base.Table.{Table}
use optima_management.Base.Decimal.{show, parse, zfill, four_digits}
use optima_management.Access.Types.{AccessRequest, Result, ok, raised, Error, value_error}

-- `s.startswith(p)`
abbrev pub starts_with : List ℕ → List ℕ → Bool
starts_with [] s = true
starts_with (c ∷ p) [] = false
starts_with (c ∷ p) (d ∷ s) = c == d && starts_with p s

-- The order of texts in the database, by code points.
abbrev pub text_lt : List ℕ → List ℕ → Bool
text_lt [] [] = false
text_lt [] (d ∷ t) = true
text_lt (c ∷ s) [] = false
text_lt (c ∷ s) (d ∷ t) = if c == d then text_lt s t else ltb c d

-- `filter(ticket_number__startswith=p).order_by('-ticket_number').first()`
unfoldable pub last_ticket : List ℕ → Table AccessRequest → Option (List ℕ)
last_ticket p [] = none
last_ticket p ((k, r) ∷ t) = elim (last_ticket p t) [
  | none ↦ if starts_with p r.ticket_number then some r.ticket_number else none
  | some best ↦
      if starts_with p r.ticket_number && text_lt best r.ticket_number
      then some r.ticket_number
      else some best
]

-- `s[-4:]`
abbrev pub last_four : List ℕ → List ℕ
last_four [] = []
last_four (c ∷ s) = if ltb (length s) 4 then c ∷ s else last_four s

-- The prefix 'ACC' and the date.
abbrev pub day_prefix : List ℕ → List ℕ
day_prefix date = b'A' ∷ b'C' ∷ b'C' ∷ date

-- The ticket behind the one with this number; `int` raises on a last number that is no number.
unfoldable pub ticket_of : List ℕ → Option ℕ → Result (List ℕ)
ticket_of date none = raised value_error
ticket_of date (some n) = ok (day_prefix date ++ zfill 4 (show (n + 1)))

unfoldable pub number_after : List ℕ → Option (List ℕ) → Result (List ℕ)
unfolding ticket_of
number_after date none = ok (day_prefix date ++ b'0' ∷ b'0' ∷ b'0' ∷ b'1' ∷ [])
number_after date (some last) = ticket_of date (parse (last_four last))

-- The ticket number of a new request.
unfoldable pub next_ticket : List ℕ → Table AccessRequest → Result (List ℕ)
unfolding number_after
next_ticket date t = number_after date (last_ticket (day_prefix date) t)
