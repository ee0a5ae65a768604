-- ===== src/Crm/Duplicates/Cascade.antt =====
-- What a deleted row takes along (the `on_delete` of crm/models).
pub mod Rounds
use optima_management.Base.{
  ℕ, ◌≡◌, ◌≤◌, ◌+◌, zero, suc, refl, sym, ap, ◌∙◌, String, Bool, true, false, not, List, [], ◌∷◌,
  ◌++◌, map, arith, if◌then◌else◌,
}
use optima_management.Base.Lists.{All, any, filter}
use optima_management.Crm.Duplicates.Types.{
  Row, Model, company, contact, lead, city, deal, request, crm_email, Store, rows, set_rows,
}
use optima_management.Crm.Duplicates.{
  refers, release, release_all, foreign_keys, taken, drop_files, take_along, size,
}

-- The models whose rows may go with a row of a model.
abbrev pub goes : Model → Model → Bool
goes company city = false
goes company _ = true
goes contact company = false
goes contact city = false
goes contact _ = true
goes lead company = false
goes lead contact = false
goes lead city = false
goes lead _ = true
goes city city = true
goes city _ = false
goes _ _ = false

All-append : {A : Type 0} (P : A → Type 0) (xs ys : List A) → All P xs → All P ys → All P (xs ++ ys)
All-append P [] ys h g = g
All-append P (x ∷ xs) ys (h, hs) g = (h, All-append P xs ys hs g)

All-map_row :
    (P : Model × ℕ → Type 0) (m : Model) (t : List Row)
    → ((k : ℕ) → P (m, k))
    → All P (map (λ (r : Row). (m, r.id)) t)
All-map_row P m [] h = tt
All-map_row P m (r ∷ t) h = (h r.id, All-map_row P m t h)

module _ (m : Model) where
  abbrev Goes : Model × ℕ → Type 0
  Goes x = goes m x.0 ≡ true

  -- The cascades of these keys stay among the models that may go.
  abbrev Closed : List (Model × String × Bool) → Type 0
  Closed = All (λ (x : Model × String × Bool). goes m x.0 ≡ true)

  taken-Goes :
      (fks : List (Model × String × Bool)) (k : ℕ) (s : Store)
      → Closed fks
      → All Goes (taken fks k s)
  unfolding taken
  taken-Goes [] k s h = tt
  taken-Goes ((n, f, true) ∷ fks) k s (h, hs) =
      All-append Goes _ _ (All-map_row Goes n _ (λ j. h)) (taken-Goes fks k _ hs)
  taken-Goes ((n, f, false) ∷ fks) k s (h, hs) = taken-Goes fks k _ hs

cascade-Goes :
    (m n : Model) (k : ℕ) (s : Store) → goes m n ≡ true → All (Goes m) (taken (foreign_keys n) k s)
unfolding foreign_keys
cascade-Goes company company k s h =
    taken-Goes company _ k s (refl, (refl, (refl, (refl, (refl, tt)))))
cascade-Goes company contact k s h =
    taken-Goes company _ k s (refl, (refl, (refl, (refl, (refl, tt)))))
cascade-Goes company lead k s h = taken-Goes company _ k s (refl, (refl, (refl, tt)))
cascade-Goes company city k s h = cc
cascade-Goes company deal k s h = taken-Goes company _ k s (refl, (refl, tt))
cascade-Goes company request k s h = taken-Goes company _ k s (refl, (refl, tt))
cascade-Goes company crm_email k s h = unfold taken in tt
cascade-Goes contact company k s h = cc
cascade-Goes contact contact k s h =
    taken-Goes contact _ k s (refl, (refl, (refl, (refl, (refl, tt)))))
cascade-Goes contact lead k s h = taken-Goes contact _ k s (refl, (refl, (refl, tt)))
cascade-Goes contact city k s h = cc
cascade-Goes contact deal k s h = taken-Goes contact _ k s (refl, (refl, tt))
cascade-Goes contact request k s h = taken-Goes contact _ k s (refl, (refl, tt))
cascade-Goes contact crm_email k s h = unfold taken in tt
cascade-Goes lead company k s h = cc
cascade-Goes lead contact k s h = cc
cascade-Goes lead lead k s h = taken-Goes lead _ k s (refl, (refl, (refl, tt)))
cascade-Goes lead city k s h = cc
cascade-Goes lead deal k s h = taken-Goes lead _ k s (refl, (refl, tt))
cascade-Goes lead request k s h = taken-Goes lead _ k s (refl, (refl, tt))
cascade-Goes lead crm_email k s h = unfold taken in tt
cascade-Goes city company k s h = cc
cascade-Goes city contact k s h = cc
cascade-Goes city lead k s h = cc
cascade-Goes city city k s h = unfold taken in tt
cascade-Goes city deal k s h = cc
cascade-Goes city request k s h = cc
cascade-Goes city crm_email k s h = cc
cascade-Goes deal n k s h = cc
cascade-Goes request n k s h = cc
cascade-Goes crm_email n k s h = cc

-- A row of these models that goes leaves the rows of the model alone.
round-own :
    (m n : Model) (k : ℕ) (s : Store)
    → goes m n ≡ true
    → rows m (drop_files n k (release_all (foreign_keys n) k s)) ≡ rows m s
unfolding drop_files release_all foreign_keys rows set_rows
round-own company city k s h = cc
round-own company company k s h = refl
round-own company contact k s h = refl
round-own company lead k s h = refl
round-own company deal k s h = refl
round-own company request k s h = refl
round-own company crm_email k s h = refl
round-own contact company k s h = cc
round-own contact city k s h = cc
round-own contact contact k s h = refl
round-own contact lead k s h = refl
round-own contact deal k s h = refl
round-own contact request k s h = refl
round-own contact crm_email k s h = refl
round-own lead company k s h = cc
round-own lead contact k s h = cc
round-own lead city k s h = cc
round-own lead lead k s h = refl
round-own lead deal k s h = refl
round-own lead request k s h = refl
round-own lead crm_email k s h = refl
round-own city city k s h = refl
round-own city company k s h = cc
round-own city contact k s h = cc
round-own city lead k s h = cc
round-own city deal k s h = cc
round-own city request k s h = cc
round-own city crm_email k s h = cc
round-own deal n k s h = cc
round-own request n k s h = cc
round-own crm_email n k s h = cc

pub take_along-own :
    (m : Model) (n : ℕ) (ks : List (Model × ℕ)) (s : Store)
    → All (Goes m) ks
    → rows m (take_along n ks s) ≡ rows m s
unfolding take_along
take_along-own m zero ks s h = refl
take_along-own m (suc n) [] s h = refl
take_along-own m (suc n) ((j, k) ∷ ks) s (h, hs) =
    take_along-own m n _ _ (All-append (Goes m) ks _ hs (cascade-Goes m j k s h))
    ∙ round-own m j k s h

pub take_along_nothing : (n : ℕ) (s : Store) → take_along n [] s ≡ s
unfolding take_along
take_along_nothing zero s = refl
take_along_nothing (suc n) s = refl

-- No row names the key.
abbrev pub Unnamed : List (Model × String × Bool) → ℕ → Store → Type 0
Unnamed fks k s =
    All (λ (x : Model × String × Bool). any (λ r. refers x.1 k r) (rows x.0 s) ≡ false) fks

unnamed_filter :
    (f : String) (k : ℕ) (t : List Row)
    → any (λ r. refers f k r) t ≡ false
    → filter (λ r. refers f k r) t ≡ []
unnamed_filter f k [] h = refl
unnamed_filter f k (r ∷ t) h = ground (arith, h, unnamed_filter f k t)

unnamed_release :
    (f : String) (c : Bool) (k : ℕ) (t : List Row)
    → any (λ r. refers f k r) t ≡ false
    → release f c k t ≡ t
unfolding release
unnamed_release f true k [] h = refl
unnamed_release f false k [] h = refl
unnamed_release f true k (r ∷ t) h = ground (arith, h, unnamed_release f true k t)
unnamed_release f false k (r ∷ t) h = ground (arith, h, unnamed_release f false k t)

set_rows-rows : (m : Model) (s : Store) → set_rows m (rows m s) s ≡ s
unfolding set_rows rows
set_rows-rows company s = refl
set_rows-rows contact s = refl
set_rows-rows lead s = refl
set_rows-rows city s = refl
set_rows-rows deal s = refl
set_rows-rows request s = refl
set_rows-rows crm_email s = refl

unnamed_same :
    (m : Model) (f : String) (c : Bool) (k : ℕ) (s : Store)
    → any (λ r. refers f k r) (rows m s) ≡ false
    → set_rows m (release f c k (rows m s)) s ≡ s
unnamed_same m f c k s h =
    ap (λ t. set_rows m t s) (unnamed_release f c k (rows m s) h) ∙ set_rows-rows m s

-- A key that nothing names takes nothing along, and changes nothing.
pub Unnamed-taken :
    (fks : List (Model × String × Bool)) (k : ℕ) (s : Store) → Unnamed fks k s → taken fks k s ≡ []
unfolding taken
Unnamed-taken [] k s h = refl
Unnamed-taken ((m, f, true) ∷ fks) k s (h, hs) =
    rw (unnamed_filter f k (rows m s) h)
      (ap (taken fks k) (unnamed_same m f true k s h) ∙ Unnamed-taken fks k s hs)
Unnamed-taken ((m, f, false) ∷ fks) k s (h, hs) =
    ap (taken fks k) (unnamed_same m f false k s h) ∙ Unnamed-taken fks k s hs

pub Unnamed-release_all :
    (fks : List (Model × String × Bool)) (k : ℕ) (s : Store)
    → Unnamed fks k s
    → release_all fks k s ≡ s
unfolding release_all
Unnamed-release_all [] k s h = refl
Unnamed-release_all ((m, f, c) ∷ fks) k s (h, hs) =
    ap (release_all fks k) (unnamed_same m f c k s h) ∙ Unnamed-release_all fks k s hs

-- A deletion that takes nothing along is one round.
pub one_round :
    (m n : Model) (k fuel : ℕ) (s : Store)
    → taken (foreign_keys m) k s ≡ []
    → rows n (take_along (suc fuel) ((m, k) ∷ []) s) ≡ rows n (release_all (foreign_keys m) k s)
unfolding take_along
one_round m n k fuel s h =
    ap (λ ks. rows n (take_along fuel ks (drop_files m k (release_all (foreign_keys m) k s)))) h
    ∙ ap (rows n) (take_along_nothing fuel _)
    ∙ drop_files-rows m n k (release_all (foreign_keys m) k s)
  where
    drop_files-rows : (m n : Model) (k : ℕ) (s : Store) → rows n (drop_files m k s) ≡ rows n s
    drop_files-rows m company k s = unfold drop_files rows in refl
    drop_files-rows m contact k s = unfold drop_files rows in refl
    drop_files-rows m lead k s = unfold drop_files rows in refl
    drop_files-rows m city k s = unfold drop_files rows in refl
    drop_files-rows m deal k s = unfold drop_files rows in refl
    drop_files-rows m request k s = unfold drop_files rows in refl
    drop_files-rows m crm_email k s = unfold drop_files rows in refl

pub no_cascade : (k : ℕ) (s : Store) → taken (foreign_keys city) k s ≡ []
unfolding taken foreign_keys
no_cascade k s = refl
