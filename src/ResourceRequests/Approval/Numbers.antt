-- ===== src/ResourceRequests/Approval/Numbers.antt =====
-- RI numbers (resource_requests/views.py): the key can be read back, so two requests never share a
-- number, and a number fits into its column.
use optima_management.Base.{
  ℕ, zero, suc, ◌+◌, ◌/◌, ◌%◌, ◌≤◌, ◌<◌, ◌≡◌, refl, sym, ap, ◌∙◌, true, List, [], ◌∷◌, ◌++◌, arith,
  some-eq,
}
use optima_management.Base.Decimal.{
  show, Digits, show-Digits, parse, parse-show, digits_from, digits_from_small, digits_from_large,
}
use optima_management.Base.Lists.{same_text, length, length-append}
use optima_management.ResourceRequests.Approval.{ri_number}
use native.Mathlib.Decide.{dec_lt}

-- The digits in front of a dash are told by the dash.
before_dash :
    (s t m m' : List ℕ)
    → Digits s
    → Digits t
    → same_text (s ++ b'-' ∷ m) (t ++ b'-' ∷ m') ≡ true
    → s ≡ t
before_dash [] [] m m' d e h = refl
before_dash [] (c ∷ t) m m' d e h = ground arith
before_dash (c ∷ s) [] m m' d e h = ground arith
before_dash (a ∷ s) (b ∷ t) m m' d e h = ground (arith, before_dash s t m m' d.1 e.1)

pub ri_number-id :
    (a b : ℕ) (m m' : List ℕ) → same_text (ri_number a m) (ri_number b m') ≡ true → a ≡ b
unfolding ri_number
ri_number-id a b m m' h = some-eq (
    sym (parse-show a)
    ∙ ap parse (before_dash (show a) (show b) m m' (show-Digits a) (show-Digits b) h)
    ∙ parse-show b)

-- The number has at most so many digits.
abbrev Short : ℕ → ℕ → Type 0
Short zero n = n < 10
Short (suc k) n = Short k (n / 10)

length-digits_from :
    (k f n : ℕ) (acc : List ℕ)
    → n < f
    → Short k n
    → length (digits_from f n acc) ≤ suc k + length acc
length-digits_from k zero n acc h s = elim h [ ]
length-digits_from zero (suc f) n acc h s =
    omega (arith, ap (length {A = ℕ}) (digits_from_small (suc f) n acc h s))
length-digits_from (suc k) (suc f) n acc h s = elim (dec_lt n 10) [
  | yes small ↦ omega (arith, ap (length {A = ℕ}) (digits_from_small (suc f) n acc h small))
  | no large ↦
      let rest = length-digits_from k f (n / 10) ((48 + n % 10) ∷ acc) (omega arith) s in
      omega (arith, ap (length {A = ℕ}) (digits_from_large f n acc h (omega arith)), rest)
]

length-show : (n : ℕ) → n < 2147483648 → length (show n) ≤ 10
unfolding show
length-show n h = length-digits_from 9 (n + 1) n [] (omega arith) (omega arith)

-- A key of 31 bits and a month of six digits.
pub length-ri_number :
    (id : ℕ) (m : List ℕ) → id < 2147483648 → length m ≡ 6 → length (ri_number id m) ≤ 50
unfolding ri_number
length-ri_number id m h e = omega (arith, length-append (show id) (b'-' ∷ m), length-show id h)
