-- ===== src/Base/Decimal.antt =====
-- Python's `str(n)`, `int(s)` and `zfill`, over the code points of the text. `int` is read for
-- texts of digits alone.
use optima_management.Base.Tests.{ltb, leb, if◌then◌else◌}
use optima_management.Base.Lists.{All, length}
use Prim.Native.Nat.{ℕ, zero, suc, ◌+◌, ◌-◌, ◌*◌, ◌/◌, ◌%◌, ◌≤◌, ◌<◌}
use mathlib.Core.Path.{◌≡◌, refl, ◌∙◌, sym, subst}
use mathlib.Core.Logic.{◌≢◌}
use mathlib.Core.Bool.{Bool, ◌&&◌}
use mathlib.Core.Option.{Option, none, some}
use mathlib.Core.List.{List, [], ◌∷◌}
use native.Mathlib.Decide.{dec_lt}
use native.Mathlib.Omega.{arith}

abbrev pub is_digit : ℕ → Bool
is_digit c = leb b'0' c && leb c b'9'

-- The digits of `n` before `acc`; one round of fuel for each digit.
unfoldable pub digits_from : ℕ → ℕ → List ℕ → List ℕ
digits_from zero n acc = acc
digits_from (suc f) n acc =
    let rest = digits_from f (n / 10) ((48 + n % 10) ∷ acc) in
    if ltb n 10 then (48 + n) ∷ acc else rest

-- `str(n)`
unfoldable pub show : ℕ → List ℕ
unfolding digits_from
show n = digits_from (n + 1) n []

unfoldable pub parse_from : ℕ → List ℕ → Option ℕ
parse_from acc [] = some acc
parse_from acc (c ∷ cs) = if is_digit c then parse_from (acc * 10 + (c - 48)) cs else none

-- `int(s)`; `none` is a ValueError.
unfoldable pub parse : List ℕ → Option ℕ
unfolding parse_from
parse [] = none
parse (c ∷ cs) = parse_from 0 (c ∷ cs)

-- A step of the recursion, with the fuel as a variable.
pub digits_from_small :
    (f n : ℕ) (acc : List ℕ) → n < f → n < 10 → digits_from f n acc ≡ (48 + n) ∷ acc
unfolding digits_from
digits_from_small zero n acc h k = elim h [ ]
digits_from_small (suc f) n acc h k = ground arith

pub digits_from_large :
    (f n : ℕ) (acc : List ℕ)
    → n < suc f
    → 10 ≤ n
    → digits_from (suc f) n acc ≡ digits_from f (n / 10) ((48 + n % 10) ∷ acc)
unfolding digits_from
digits_from_large f n acc h k = ground arith

pub parse_from-digits_from :
    (f n : ℕ) (acc : List ℕ) → n < f → parse_from 0 (digits_from f n acc) ≡ parse_from n acc
unfolding digits_from parse_from
parse_from-digits_from zero n acc h = elim h [ ]
parse_from-digits_from (suc f) n acc h =
    ground (arith, parse_from-digits_from f (n / 10) ((48 + n % 10) ∷ acc))

-- There is at least one digit.
digits_from-ne-nil : (f n c : ℕ) (acc : List ℕ) → digits_from f n (c ∷ acc) ≢ []
unfolding digits_from
digits_from-ne-nil zero n c acc h = cc
digits_from-ne-nil (suc f) n c acc h =
    ground (arith, digits_from-ne-nil f (n / 10) (48 + n % 10) (c ∷ acc))

pub show-ne-nil : (n : ℕ) → show n ≢ []
unfolding show
show-ne-nil n h = ground (arith, digits_from-ne-nil n (n / 10) (48 + n % 10) [])

pub parse-parse_from : (s : List ℕ) → s ≢ [] → parse s ≡ parse_from 0 s
unfolding parse
parse-parse_from [] h = absurd (h refl)
parse-parse_from (c ∷ cs) h = refl

-- `int(str(n)) == n`
pub parse-show : (n : ℕ) → parse (show n) ≡ some n
unfolding parse_from
parse-show n =
    parse-parse_from (show n) (show-ne-nil n)
    ∙ (unfold show in parse_from-digits_from (n + 1) n [] (omega arith))

abbrev pub Digits : List ℕ → Type 0
Digits = All (λ c. (48 ≤ c) × (c ≤ 57))

digits_from-Digits : (f n : ℕ) (acc : List ℕ) → n < f → Digits acc → Digits (digits_from f n acc)
unfolding digits_from
digits_from-Digits zero n acc h d = elim h [ ]
digits_from-Digits (suc f) n acc h d = elim (dec_lt n 10) [
  | yes small ↦ subst Digits (sym (digits_from_small (suc f) n acc h small)) (omega arith, d)
  | no large ↦
      subst Digits (sym (digits_from_large f n acc h (omega arith)))
        (digits_from-Digits f (n / 10) ((48 + n % 10) ∷ acc) (omega arith) (omega arith, d))
]

pub show-Digits : (n : ℕ) → Digits (show n)
unfolding show
show-Digits n = digits_from-Digits (n + 1) n [] (omega arith) tt

abbrev pad_zeros : ℕ → List ℕ → List ℕ
pad_zeros zero s = s
pad_zeros (suc k) s = b'0' ∷ pad_zeros k s

-- `s.zfill(w)` for a text with no sign.
unfoldable pub zfill : ℕ → List ℕ → List ℕ
zfill w s = pad_zeros (w - length s) s

-- Four decimal digits.
abbrev pub four_digits : ℕ → List ℕ
four_digits n = (48 + n / 1000) ∷ (48 + n / 100 % 10) ∷ (48 + n / 10 % 10) ∷ (48 + n % 10) ∷ []

digits_from_tens :
    (f n : ℕ) (acc : List ℕ)
    → n < f
    → 10 ≤ n
    → n < 100
    → digits_from f n acc ≡ (48 + n / 10) ∷ (48 + n % 10) ∷ acc
digits_from_tens zero n acc h a b = elim h [ ]
digits_from_tens (suc f) n acc h a b =
    digits_from_large f n acc h a ∙ digits_from_small f (n / 10) _ (omega arith) (omega arith)

digits_from_hundreds :
    (f n : ℕ) (acc : List ℕ)
    → n < f
    → 100 ≤ n
    → n < 1000
    → digits_from f n acc ≡ (48 + n / 10 / 10) ∷ (48 + n / 10 % 10) ∷ (48 + n % 10) ∷ acc
digits_from_hundreds zero n acc h a b = elim h [ ]
digits_from_hundreds (suc f) n acc h a b =
    digits_from_large f n acc h (omega arith)
    ∙ digits_from_tens f (n / 10) _ (omega arith) (omega arith) (omega arith)

digits_from_thousands :
    (f n : ℕ) (acc : List ℕ)
    → n < f
    → 1000 ≤ n
    → n < 10000
    → digits_from f n acc
      ≡ (48 + n / 10 / 10 / 10) ∷ (48 + n / 10 / 10 % 10) ∷ (48 + n / 10 % 10) ∷ (48 + n % 10) ∷ acc
digits_from_thousands zero n acc h a b = elim h [ ]
digits_from_thousands (suc f) n acc h a b =
    digits_from_large f n acc h (omega arith)
    ∙ digits_from_hundreds f (n / 10) _ (omega arith) (omega arith) (omega arith)

four_eq :
    (a b c d a' b' c' d' : ℕ)
    → (a ≡ a') × (b ≡ b') × (c ≡ c') × (d ≡ d')
    → ◌≡◌ {A = List ℕ} (a ∷ b ∷ c ∷ d ∷ []) (a' ∷ b' ∷ c' ∷ d' ∷ [])
four_eq a b c d a' b' c' d' h = ground arith

-- `str(n).zfill(4)` for a number of at most four digits.
pub zfill-show : (n : ℕ) → n < 10000 → zfill 4 (show n) ≡ four_digits n
unfolding zfill show
zfill-show n h = elim (dec_lt n 10) [
  | yes p ↦
      rw (digits_from_small (n + 1) n [] (omega arith) p) (four_eq _ _ _ _ _ _ _ _ (omega arith))
  | no p ↦ elim (dec_lt n 100) [
    | yes q ↦
        rw (digits_from_tens (n + 1) n [] (omega arith) (omega arith) q)
          (four_eq _ _ _ _ _ _ _ _ (omega arith))
    | no q ↦ elim (dec_lt n 1000) [
      | yes r ↦
          rw (digits_from_hundreds (n + 1) n [] (omega arith) (omega arith) r)
            (four_eq _ _ _ _ _ _ _ _ (omega arith))
      | no r ↦
          rw (digits_from_thousands (n + 1) n [] (omega arith) (omega arith) h)
            (four_eq _ _ _ _ _ _ _ _ (omega arith))
    ]
  ]
]

pub parse-four_digits : (n : ℕ) → n < 10000 → parse (four_digits n) ≡ some n
unfolding parse parse_from
parse-four_digits n h = ground arith
