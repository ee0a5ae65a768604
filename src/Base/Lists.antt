-- ===== src/Base/Lists.antt =====
-- Lists over the native numbers: measures, membership of keys, and predicates by recursion.
use Prim.Native.Nat.{ℕ, suc, ◌+◌, ◌<◌}
use mathlib.Core.Path.{◌≡◌, refl, ap}
use mathlib.Core.Logic.{◌↔◌, inl, inr}
use mathlib.Core.Bool.{Bool, true, false, ◌&&◌, ◌||◌}
use mathlib.Core.List.{List, [], ◌∷◌, ◌++◌}
use mathlib.Core.Option.{Option, none, some}
use native.Mathlib.Omega.{arith}
use optima_management.Base.Tests.{◌==◌, if◌then◌else◌, Bool-cases, ==_iff}

module _ {ℓ} {A : Type ℓ} where
  abbrev pub length : List A → ℕ
  length [] = 0
  length (x ∷ xs) = suc (length xs)

  -- Every element has the property.
  abbrev pub All {κ} : (A → Type κ) → List A → Type κ
  All P [] = Unit
  All P (x ∷ xs) = P x × All P xs

  -- Python's `[x for x in xs if p(x)]`, and a query set's `filter`.
  abbrev pub filter : (A → Bool) → List A → List A
  filter p [] = []
  filter p (x ∷ xs) = if p x then x ∷ filter p xs else filter p xs

  abbrev pub any : (A → Bool) → List A → Bool
  any p [] = false
  any p (x ∷ xs) = p x || any p xs

  abbrev pub all : (A → Bool) → List A → Bool
  all p [] = true
  all p (x ∷ xs) = p x && all p xs

  -- A query set's `first`.
  abbrev pub head? : List A → Option A
  head? [] = none
  head? (x ∷ xs) = some x

  pub length-append : (xs ys : List A) → length (xs ++ ys) ≡ length xs + length ys
  length-append [] ys = omega arith
  length-append (x ∷ xs) ys = omega (arith, length-append xs ys)

-- Equality of two texts, as lists of code points.
abbrev pub same_text : List ℕ → List ℕ → Bool
same_text [] [] = true
same_text (a ∷ s) (b ∷ t) = a == b && same_text s t
same_text _ _ = false

pub same_text_refl : (s : List ℕ) → same_text s s ≡ true
same_text_refl [] = refl
same_text_refl (c ∷ s) = ground (arith, same_text_refl s)

-- Python's `k in ks`.
abbrev pub elem : ℕ → List ℕ → Bool
elem k [] = false
elem k (x ∷ xs) = k == x || elem k xs

-- Python's `ks.remove(k)`: the first occurrence; where there is none, Python raises.
abbrev pub remove : ℕ → List ℕ → List ℕ
remove k [] = []
remove k (x ∷ xs) = if k == x then xs else x ∷ remove k xs

-- How often a key occurs.
abbrev pub count : ℕ → List ℕ → ℕ
count k [] = 0
count k (x ∷ xs) = (if k == x then 1 else 0) + count k xs

pub elem-append : (k : ℕ) (xs ys : List ℕ) → elem k (xs ++ ys) ≡ (elem k xs || elem k ys)
elem-append k [] ys = refl
elem-append k (x ∷ xs) ys = ground (arith, elem-append k xs ys)

pub count-append : (k : ℕ) (xs ys : List ℕ) → count k (xs ++ ys) ≡ count k xs + count k ys
count-append k [] ys = omega arith
count-append k (x ∷ xs) ys = omega (arith, count-append k xs ys)

pub count-remove :
    (k j : ℕ) (xs : List ℕ)
    → elem k xs ≡ true
    → count j (remove k xs) + (if j == k then 1 else 0) ≡ count j xs
count-remove k j [] h = ground arith
count-remove k j (x ∷ xs) h = ground (arith, count-remove k j xs)

pub elem-count : (k : ℕ) (xs : List ℕ) → (elem k xs ≡ true) ↔ (0 < count k xs)
elem-count k [] = (λ h. ground arith, λ h. ground arith)
elem-count k (x ∷ xs) =
    (λ h. ground (arith, (elem-count k xs).0), λ h. ground (arith, (elem-count k xs).1))

pub elem-count_zero : (k : ℕ) (xs : List ℕ) → elem k xs ≡ false → count k xs ≡ 0
elem-count_zero k [] h = refl
elem-count_zero k (x ∷ xs) h = ground (arith, elem-count_zero k xs)

-- No key is listed twice.
abbrev pub IsNodup : List ℕ → Type 0
IsNodup [] = Unit {0}
IsNodup (x ∷ xs) = (elem x xs ≡ false) × IsNodup xs

pub IsNodup-count : (k : ℕ) (xs : List ℕ) → IsNodup xs → elem k xs ≡ true → count k xs ≡ 1
IsNodup-count k [] n h = ground arith
IsNodup-count k (x ∷ xs) n h = ground (arith, IsNodup-count k xs n.1, elem-count_zero k xs)

-- The keys that a filter keeps.
pub elem-filter :
    (a : ℕ) (p : ℕ → Bool) (ids : List ℕ) → elem a (filter p ids) ≡ (elem a ids && p a)
elem-filter a p [] = refl
elem-filter a p (i ∷ is) = elim (Bool-cases (a == i)) [
  | inl e ↦ let e' = (==_iff a i).0 e in ground (arith, elem-filter a p is, ap p e', e)
  | inr e ↦ ground (arith, elem-filter a p is, e)
]
