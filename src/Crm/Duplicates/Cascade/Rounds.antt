-- ===== src/Crm/Duplicates/Cascade/Rounds.antt =====
-- The rounds of a deletion end: each row that goes along leaves its table in the round that finds it.
use optima_management.Base.{
  ℕ, suc, ◌≡◌, ◌+◌, refl, ap, String, true, false, List, [], ◌∷◌, map, arith,
}
use optima_management.Base.Lists.{filter, length}
use optima_management.Crm.Duplicates.Types.{Row, Model}
use optima_management.Crm.Duplicates.{refers, release}

-- The rows that name the key and those that stay.
split :
    (m : Model) (f : String) (k : ℕ) (t : List Row)
    → length {A = Model × ℕ} (map (λ (r : Row). (m, r.id)) (filter (λ r. refers f k r) t))
        + length (release f true k t)
      ≡ length t
unfolding release
split m f k [] = refl
split m f k (r ∷ t) = ground (arith, split m f k t)

cleared : (f : String) (k : ℕ) (t : List Row) → length (release f false k t) ≡ length t
unfolding release
cleared f k [] = refl
cleared f k (r ∷ t) = ap suc (cleared f k t)
