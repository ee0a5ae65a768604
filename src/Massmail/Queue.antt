-- ===== src/Massmail/Queue.antt =====
-- `EmlAccountsQueue` (massmail/models/eml_accounts_queue.py): the ids of the accounts, which the
-- source keeps as a JSON list.
use optima_management.Base.{
  ℕ, zero, suc, ◌≡◌, refl, sym, ap, ◌∙◌, true, false, Option, none, some, List, [], ◌∷◌, ◌++◌, ◌==◌,
  arith, if◌then◌else◌, Bool-cases, inl, inr, if-both,
}
use mathlib.Core.List.{append-nil, append_assoc}
use optima_management.Base.Lists.{elem, remove, length, IsNodup, elem-append}

-- `get_next`: the first id, which moves to the end; `none` for an empty queue.
unfoldable pub get_next : List ℕ → Option ℕ × List ℕ
get_next [] = (none, [])
get_next (a ∷ q) = (some a, q ++ a ∷ [])

unfoldable pub add_id : ℕ → List ℕ → List ℕ
add_id a q = if elem a q then q else q ++ a ∷ []

unfoldable pub remove_id : ℕ → List ℕ → List ℕ
remove_id a q = if elem a q then remove a q else q

-- The ids that `n` calls of `get_next` return, and the queue after them.
unfoldable pub next_many : ℕ → List ℕ → List (Option ℕ) × List ℕ
unfolding get_next
next_many zero q = ([], q)
next_many (suc n) q = let (a, q') = get_next q in let (bs, q'') = next_many n q' in (a ∷ bs, q'')

abbrev pub somes : List ℕ → List (Option ℕ)
somes [] = []
somes (a ∷ q) = some a ∷ somes q

next_many-append : (xs ys : List ℕ) → next_many (length xs) (xs ++ ys) ≡ (somes xs, ys ++ xs)
unfolding next_many
next_many-append [] ys = simp append-nil
next_many-append (x ∷ xs) ys = ground (
  arith,
  next_many-append xs (ys ++ x ∷ []),
  append_assoc {0} xs ys (x ∷ []),
  append_assoc {0} ys (x ∷ []) xs,
)

-- A round of calls, as many as there are accounts, uses each account once, in the order of the
-- queue, and leaves the queue as it was.
pub next_many_round : (q : List ℕ) → next_many (length q) q ≡ (somes q, q)
next_many_round q = ap (next_many (length q)) (sym (append-nil q)) ∙ next_many-append q []

elem-remove : (j a : ℕ) (q : List ℕ) → elem j q ≡ false → elem j (remove a q) ≡ false
elem-remove j a [] h = refl
elem-remove j a (x ∷ q) h = ground (arith, elem-remove j a q)

remove-IsNodup : (a : ℕ) (q : List ℕ) → IsNodup q → IsNodup (remove a q)
remove-IsNodup a [] n = tt
remove-IsNodup a (x ∷ q) n =
    if-both IsNodup (a == x) _ _ n.1 (elem-remove x a q n.0, remove-IsNodup a q n.1)

not_elem-remove : (a : ℕ) (q : List ℕ) → IsNodup q → elem a (remove a q) ≡ false
not_elem-remove a [] n = refl
not_elem-remove a (x ∷ q) n = ground (arith, not_elem-remove a q n.1)

snoc-IsNodup : (a : ℕ) (q : List ℕ) → IsNodup q → elem a q ≡ false → IsNodup (q ++ a ∷ [])
snoc-IsNodup a [] n h = (refl, tt)
snoc-IsNodup a (x ∷ q) n h =
    (elem-append x q (a ∷ []) ∙ ground arith, snoc-IsNodup a q n.1 (ground arith))

-- Adding and removing keep an id from being listed twice; an id that is added is there, and one
-- that is removed is not.
pub add_remove-IsNodup :
    (a : ℕ) (q : List ℕ)
    → IsNodup q
    → IsNodup (add_id a q)
      × IsNodup (remove_id a q)
      × (elem a (add_id a q) ≡ true)
      × (elem a (remove_id a q) ≡ false)
unfolding add_id remove_id
add_remove-IsNodup a q n = elim (Bool-cases (elem a q)) [
  | inl listed ↦ (
    rw listed n,
    rw listed (remove-IsNodup a q n),
    rw listed listed,
    rw listed (not_elem-remove a q n),
  )
  | inr new ↦ (
    rw new (snoc-IsNodup a q n new),
    rw new n,
    rw new (elem-append a q (a ∷ []) ∙ ground arith),
    rw new new,
  )
]
