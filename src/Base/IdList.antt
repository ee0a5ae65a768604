-- ===== src/Base/IdList.antt =====
-- The comma-separated lists of ids that text fields hold: `",".join(map(str, ids))`, and the list
-- that is read back from such a field.
use Prim.Native.Nat.{ℕ}
use mathlib.Core.Path.{◌≡◌, refl, ap, ◌∙◌, subst}
use mathlib.Core.Logic.{◌≢◌}
use mathlib.Core.Option.{Option, none, some}
use mathlib.Core.List.{List, [], ◌∷◌, ◌++◌, append-nil, append_assoc, map}
use native.Mathlib.Omega.{arith}
use optima_management.Base.Tests.{◌==◌, if◌then◌else◌}
use optima_management.Base.Decimal.{show, parse, Digits, show-Digits, show-ne-nil, parse-show}

-- `s.split(',')`, with the piece read so far.
unfoldable pub split_from : List ℕ → List ℕ → List (List ℕ)
split_from cur [] = cur ∷ []
split_from cur (c ∷ cs) =
    let rest = split_from (cur ++ c ∷ []) cs in
    let next = split_from [] cs in if c == b',' then cur ∷ next else rest

-- `",".join(...)`
unfoldable pub join : List (List ℕ) → List ℕ
join [] = []
join (x ∷ []) = x
join (x ∷ y ∷ r) = x ++ b',' ∷ join (y ∷ r)

unfoldable pub parse_all : List (List ℕ) → Option (List ℕ)
parse_all [] = some []
parse_all (x ∷ xs) = elim (parse x) [
  | none ↦ none
  | some n ↦ elim (parse_all xs) [ none ↦ none | some ns ↦ some (n ∷ ns) ]
]

split_from-Digits :
    (cur x rest : List ℕ) → Digits x → split_from cur (x ++ rest) ≡ split_from (cur ++ x) rest
unfolding split_from
split_from-Digits cur [] rest d = simp append-nil
split_from-Digits cur (c ∷ x) rest d =
    ground (arith, split_from-Digits (cur ++ c ∷ []) x rest d.1, append_assoc {0} cur (c ∷ []) x)

-- `[int(i) for i in field.split(',')]` behind the test that the field is not empty.
unfoldable pub parse_ids : List ℕ → Option (List ℕ)
unfolding split_from parse_all
parse_ids [] = some []
parse_ids (c ∷ cs) = parse_all (split_from [] (c ∷ cs))

-- `",".join(map(str, ids))`
unfoldable pub show_ids : List ℕ → List ℕ
unfolding join
show_ids ids = join (map show ids)

split_from_comma : (cur cs : List ℕ) → split_from cur (b',' ∷ cs) ≡ cur ∷ split_from [] cs
unfolding split_from
split_from_comma cur cs = refl

split_show_ids : (n : ℕ) (ns : List ℕ) → split_from [] (show_ids (n ∷ ns)) ≡ map show (n ∷ ns)
unfolding show_ids
split_show_ids n [] =
    subst (λ s. split_from [] s ≡ show n ∷ []) (append-nil (show n))
      (split_from-Digits [] (show n) [] (show-Digits n) ∙ (unfold split_from in refl))
split_show_ids n (m ∷ ms) =
    split_from-Digits [] (show n) (b',' ∷ show_ids (m ∷ ms)) (show-Digits n)
    ∙ split_from_comma (show n) (show_ids (m ∷ ms))
    ∙ ap (λ r. show n ∷ r) (split_show_ids m ms)

parse_all-map-show : (ns : List ℕ) → parse_all (map show ns) ≡ some ns
unfolding parse_all
parse_all-map-show [] = refl
parse_all-map-show (n ∷ ns) = ground (arith, parse-show n, parse_all-map-show ns)

append-ne-nil : (xs ys : List ℕ) → xs ≢ [] → xs ++ ys ≢ []
append-ne-nil [] ys h = absurd (h refl)
append-ne-nil (x ∷ xs) ys h = λ e. cc

show_ids-ne-nil : (n : ℕ) (ns : List ℕ) → show_ids (n ∷ ns) ≢ []
unfolding show_ids
show_ids-ne-nil n [] = show-ne-nil n
show_ids-ne-nil n (m ∷ ms) = append-ne-nil (show n) (b',' ∷ show_ids (m ∷ ms)) (show-ne-nil n)

parse_ids-split : (s : List ℕ) → s ≢ [] → parse_ids s ≡ parse_all (split_from [] s)
unfolding parse_ids
parse_ids-split [] h = absurd (h refl)
parse_ids-split (c ∷ cs) h = refl

-- A list of ids is read back as it was written.
pub parse_ids-show_ids : (ns : List ℕ) → parse_ids (show_ids ns) ≡ some ns
parse_ids-show_ids [] = unfold show_ids parse_ids in refl
parse_ids-show_ids (n ∷ ns) =
    parse_ids-split (show_ids (n ∷ ns)) (show_ids-ne-nil n ns)
    ∙ ap parse_all (split_show_ids n ns)
    ∙ parse_all-map-show (n ∷ ns)
