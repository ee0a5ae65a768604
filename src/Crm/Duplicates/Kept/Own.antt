-- ===== src/Crm/Duplicates/Kept/Own.antt =====
-- The object that stays and the one that goes (crm/views/delete_duplicate_object.py, `post`).
use optima_management.Base.{
  ℕ, ◌≡◌, refl, sym, ap, ◌∙◌, true, false, not, none, some, List, [], ◌∷◌, ◌==◌, ==_iff, Bool-cases,
  suc, inl, inr, ◌⊎◌, arith, is_some,
}
use optima_management.Base.Lists.{filter}
use optima_management.Crm.Duplicates.Types.{
  Row, Model, company, contact, lead, city, deal, request, crm_email, Store, rows, set_rows,
}
use optima_management.Crm.Duplicates.Fields.{update_fields-id}
use optima_management.Crm.Duplicates.{
  get_data, repoint_all, relate_to, by_id, save, foreign_keys, release_all, size, delete,
  update_fields, post_rows, post,
}
use optima_management.Crm.Duplicates.Cascade.{take_along-own}
use optima_management.Crm.Duplicates.Kept.{stored, link_of, linked, by_id-id, found}

-- The rows of the model itself.
own_rows :
    (orig dup : Row) (s : Store) (m : Model)
    → is_some (get_data m) ≡ true
    → rows m (post_rows m (link_of m) (linked m) orig dup s)
      ≡ filter (λ r. not (r.id == dup.id)) (save (update_fields m dup orig) (rows m s))
unfolding get_data post_rows relate_to repoint_all delete release_all foreign_keys rows set_rows
    linked link_of
own_rows orig dup s company h = ap (filter (λ r. not (r.id == dup.id))) (
    take_along-own company (suc (size (stored orig dup s company))) ((company, dup.id) ∷ [])
      (stored orig dup s company) (refl, tt))
own_rows orig dup s contact h = ap (filter (λ r. not (r.id == dup.id))) (
    take_along-own contact (suc (size (stored orig dup s contact))) ((contact, dup.id) ∷ [])
      (stored orig dup s contact) (refl, tt))
own_rows orig dup s lead h = ap (filter (λ r. not (r.id == dup.id))) (
    take_along-own lead (suc (size (stored orig dup s lead))) ((lead, dup.id) ∷ [])
      (stored orig dup s lead) (refl, tt))
own_rows orig dup s city h = ap (filter (λ r. not (r.id == dup.id))) (
    take_along-own city (suc (size (stored orig dup s city))) ((city, dup.id) ∷ [])
      (stored orig dup s city) (refl, tt))
own_rows orig dup s deal h = cc
own_rows orig dup s request h = cc
own_rows orig dup s crm_email h = cc

-- `get(id=...)` behind a save and a deletion.
by_id-save :
    (r u : Row) (k : ℕ) (t : List Row) → u.id ≡ k → by_id k t ≡ some r → by_id k (save u t) ≡ some u
unfolding by_id save
by_id-save r u k [] e h = cc
by_id-save r u k (o ∷ t) e h = ground (arith, by_id-save r u k t e)

by_id-deleted : (k : ℕ) (t : List Row) → by_id k (filter (λ r. not (r.id == k)) t) ≡ none
unfolding by_id
by_id-deleted k [] = refl
by_id-deleted k (o ∷ t) = ground (arith, by_id-deleted k t)

by_id-kept :
    (j k : ℕ) (t : List Row)
    → (k == j) ≡ false
    → by_id j (filter (λ r. not (r.id == k)) t) ≡ by_id j t
unfolding by_id
by_id-kept j k [] ne = refl
by_id-kept j k (o ∷ t) ne = ground (arith, by_id-kept j k t ne)

own_rows_at :
    (m : Model) (orig dup : Row) (s s' : Store) (o d : ℕ)
    → is_some (get_data m) ≡ true
    → dup.id ≡ d
    → by_id o (rows m s) ≡ some orig
    → by_id d (rows m s) ≡ some dup
    → post_rows m (link_of m) (linked m) orig dup s ≡ s'
    → (by_id d (rows m s') ≡ none)
      × ((d ≡ o)
          ⊎ ((orig : Row) × (dup : Row) × (by_id o (rows m s) ≡ some orig)
              × (by_id d (rows m s) ≡ some dup)
              × (by_id o (rows m s') ≡ some (update_fields m dup orig))))
own_rows_at m orig dup s s' o d known sd p q e =
    let u = update_fields m dup orig in
    let own =
      ap (rows m) (sym e)
      ∙ own_rows orig dup s m known
      ∙ ap (λ k. filter (λ r. not (r.id == k)) (save u (rows m s))) sd in
    let saved =
      by_id-save orig u o (rows m s) (update_fields-id m dup orig ∙ by_id-id o orig (rows m s) p)
        p in
    (
      ap (by_id d) own ∙ by_id-deleted d (save u (rows m s)),
      elim (Bool-cases (d == o)) [
        | inl same ↦ inl ((==_iff d o).0 same)
        | inr ne ↦
            inr (orig, dup, p, q, ap (by_id o) own ∙ by_id-kept o d (save u (rows m s)) ne ∙ saved)
      ],
    )

-- The duplicate is gone, be it the object that was chosen to stay; another object that was chosen has
-- the fields that it lacked from the duplicate.
pub post_own_rows :
    (m : Model) (o d : ℕ) (s s' : Store)
    → post m o d s ≡ some s'
    → (by_id d (rows m s') ≡ none)
      × ((d ≡ o)
          ⊎ ((orig : Row) × (dup : Row) × (by_id o (rows m s) ≡ some orig)
              × (by_id d (rows m s) ≡ some dup)
              × (by_id o (rows m s') ≡ some (update_fields m dup orig))))
post_own_rows m o d s s' h =
    let (orig, dup, known, p, q, e) = found m o d s s' h in
    own_rows_at m orig dup s s' o d known (by_id-id d dup (rows m s) q) p q e
