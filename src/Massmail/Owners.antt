-- ===== src/Massmail/Owners.antt =====
-- `check_owners` (massmail/utils/sendmassmail.py): of the mailings that are to be sent, the first of
-- each owner. `seen` is `owner_list`.
use optima_management.Base.{
  ℕ, ◌≡◌, refl, ◌∙◌, not, List, [], ◌∷◌, ◌++◌, arith, if◌then◌else◌, if-both, ◌&&◌,
}
use optima_management.Base.Lists.{elem, IsNodup, elem-append}
use optima_management.Massmail.MailingOut.{MailingOut}

unfoldable pub check_owners_from : List ℕ → List MailingOut → List MailingOut
check_owners_from seen [] = []
check_owners_from seen (m ∷ ms) =
    let first = m ∷ check_owners_from (seen ++ m.owner ∷ []) ms in
    let rest = check_owners_from seen ms in if elem m.owner seen then rest else first

unfoldable pub check_owners : List MailingOut → List MailingOut
unfolding check_owners_from
check_owners ms = check_owners_from [] ms

abbrev pub owners : List MailingOut → List ℕ
owners [] = []
owners (m ∷ ms) = m.owner ∷ owners ms

-- An owner of the result is an owner of the list that has not been seen.
pub owners-check_from :
    (a : ℕ) (seen : List ℕ) (ms : List MailingOut)
    → elem a (owners (check_owners_from seen ms)) ≡ (elem a (owners ms) && not (elem a seen))
unfolding check_owners_from
owners-check_from a seen [] = refl
owners-check_from a seen (m ∷ ms) = ground (
  arith,
  owners-check_from a seen ms,
  owners-check_from a (seen ++ m.owner ∷ []) ms,
  elem-append a seen (m.owner ∷ []),
)

IsNodup-check_from :
    (seen : List ℕ) (ms : List MailingOut) → IsNodup (owners (check_owners_from seen ms))
unfolding check_owners_from
IsNodup-check_from seen [] = tt
IsNodup-check_from seen (m ∷ ms) =
    if-both (λ r. IsNodup (owners r)) (elem m.owner seen) _ _ (IsNodup-check_from seen ms)
      (
        owners-check_from m.owner (seen ++ m.owner ∷ []) ms
            ∙ ground (arith, elem-append m.owner seen (m.owner ∷ [])),
        IsNodup-check_from (seen ++ m.owner ∷ []) ms,
      )

-- Each owner has one mailing in a run: no owner stands twice in the result, and it has exactly the
-- owners of the mailings.
pub check_owners_once :
    (ms : List MailingOut)
    → IsNodup (owners (check_owners ms))
      × ((a : ℕ) → elem a (owners (check_owners ms)) ≡ elem a (owners ms))
unfolding check_owners
check_owners_once ms = (IsNodup-check_from [] ms, λ a. owners-check_from a [] ms ∙ ground arith)
