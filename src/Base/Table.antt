-- ===== src/Base/Table.antt =====
-- A table of the database: rows under their primary keys, in the order of the keys, which is the
-- order of a query set that `first()` reads. `save` of a row that exists overwrites it.
use Prim.Native.Nat.{ℕ}
use mathlib.Core.Path.{◌≡◌, subst}
use mathlib.Core.Logic.{◌≢◌}
use mathlib.Core.Bool.{Bool, true, false}
use mathlib.Core.List.{List, [], ◌∷◌}
use mathlib.Core.Option.{Option, none, some}
use native.Mathlib.Omega.{arith}
use optima_management.Base.Tests.{some-eq, ◌==◌, if◌then◌else◌}

abbrev pub Table {ℓ} : Type ℓ → Type ℓ
Table A = List (ℕ × A)

module _ {ℓ} {A : Type ℓ} where
  -- `objects.get(pk=k)`; `none` is `DoesNotExist`.
  abbrev pub get : ℕ → Table A → Option A
  get k [] = none
  get k ((j, a) ∷ t) = if k == j then some a else get k t

  -- UPDATE of the row with this key, or INSERT at the end.
  abbrev pub put : ℕ → A → Table A → Table A
  put k a [] = (k, a) ∷ []
  put k a ((j, b) ∷ t) = if k == j then (k, a) ∷ t else (j, b) ∷ put k a t

  -- `filter(...).first()`: the first row that passes the test, with its key.
  abbrev pub find : (A → Bool) → Table A → Option (ℕ × A)
  find p [] = none
  find p ((j, a) ∷ t) = if p a then some (j, a) else find p t

  -- `filter(...).first()` of a model that is ordered by `-created_at`: the newest row that passes.
  abbrev pub find_newest : (A → Bool) → Table A → Option (ℕ × A)
  find_newest p [] = none
  find_newest p ((j, a) ∷ t) = elim (find_newest p t) [
    | some r ↦ some r
    | none ↦ if p a then some (j, a) else none
  ]

  -- `filter(...).exists()`
  abbrev pub exists : (A → Bool) → Table A → Bool
  exists p [] = false
  exists p ((j, a) ∷ t) = if p a then true else exists p t

  pub get-put_self : (k : ℕ) (a : A) (t : Table A) → get k (put k a t) ≡ some a
  get-put_self k a [] = ground arith
  get-put_self k a (r ∷ t) = ground (arith, get-put_self k a t)

  pub get-put_ne : (j k : ℕ) (a : A) (t : Table A) → j ≢ k → get j (put k a t) ≡ get j t
  get-put_ne j k a [] h = ground arith
  get-put_ne j k a (r ∷ t) h = ground (arith, get-put_ne j k a t h)

  -- A property of every row.
  abbrev pub AllRows {κ} : (A → Type κ) → Table A → Type κ
  AllRows P [] = Unit
  AllRows P ((j, a) ∷ t) = P a × AllRows P t

  pub AllRows-put {κ} :
      (P : A → Type κ) (k : ℕ) (a : A) (t : Table A) → P a → AllRows P t → AllRows P (put k a t)
  AllRows-put P k a [] p h = (p, tt)
  AllRows-put P k a ((j, b) ∷ t) p h =
      elim (k == j) as (λ c. AllRows P (if c then (k, a) ∷ t else (j, b) ∷ put k a t)) [
        | true ↦ (p, h.1)
        | false ↦ (h.0, AllRows-put P k a t p h.1)
      ]

  pub AllRows-get {κ} :
      (P : A → Type κ) (k : ℕ) {a : A} (t : Table A) → AllRows P t → get k t ≡ some a → P a
  AllRows-get P k [] h e = cc
  AllRows-get P k {a = a} ((j, b) ∷ t) h e = go (k == j) e (AllRows-get P k t h.1)
    where
      go : (c : Bool) → (if c then some b else get k t) ≡ some a → (get k t ≡ some a → P a) → P a
      go true q rest = subst P (some-eq q) h.0
      go false q rest = rest q
