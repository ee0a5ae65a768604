-- ===== src/Crm/Duplicates/Kept.antt =====
-- The rows behind the deletion of a duplicate (crm/views/delete_duplicate_object.py, `post`).
pub mod Own
use optima_management.Base.{
  ℕ, ◌≡◌, ◌≢◌, refl, sym, ap, ◌∙◌, String, Bool, true, false, not, ◌&&◌, Option, none, some, List,
  [], ◌∷◌, map, ◌==◌, ==_iff, str_eq, eq_iff, if◌then◌else◌, if-both, suc, Bool-cases, Option-cases,
  inl, inr, ◌⊎◌, arith, get_or, is_some, some-eq,
}
use optima_management.Base.Lists.{All, filter, any, head?}
use optima_management.Crm.Duplicates.Types.{
  Row, key, names, setattr, Model, company, contact, lead, city, deal, request, crm_email,
  same_model, Store, rows, set_rows, no_value,
}
use mathlib.Core.Path.{subst}
use optima_management.Crm.Duplicates.Cascade.{
  Unnamed, Unnamed-taken, Unnamed-release_all, one_round, no_cascade,
}
use optima_management.Crm.Duplicates.Fields.{update_fields-id}
use optima_management.Crm.Duplicates.{
  get_data, refers, repoint, repoint_all, relate_to, by_id, save, foreign_keys, release,
  release_all, delete, take_along, size, update_fields, post_rows, post, is_of,
}

-- The foreign key that `relate_to` writes, and the models.
abbrev pub link_of : Model → String
unfolding get_data
link_of m = (get_or ("", []) (get_data m)).0

abbrev pub linked : Model → List Model
unfolding get_data
linked m = (get_or ("", []) (get_data m)).1

module _ (f : String) (dup orig : ℕ) (ne : dup ≢ orig) where
  repoint-refers : (r : Row) → refers f dup (repoint f dup orig r) ≡ false
  unfolding refers repoint setattr
  repoint-refers r = elim (Bool-cases (refers f dup r)) [
    | inl e ↦ rw (e, (eq_iff f f).1 refl) (ground arith)
    | inr e ↦ rw e e
  ]

  -- Nothing is left to take along or to release.
  released :
      (cascade : Bool) (t : List Row)
      → release f cascade dup (map (repoint f dup orig) t) ≡ map (repoint f dup orig) t
  unfolding release
  released true [] = refl
  released false [] = refl
  released true (r ∷ t) =
      rw (repoint-refers r) (ap (λ t. repoint f dup orig r ∷ t) (released true t))
  released false (r ∷ t) =
      rw (repoint-refers r) (ap (λ t. repoint f dup orig r ∷ t) (released false t))

  any_repointed : (t : List Row) → any (λ r. refers f dup r) (map (repoint f dup orig) t) ≡ false
  any_repointed [] = refl
  any_repointed (r ∷ t) = rw (repoint-refers r) (any_repointed t)

-- The deals that name a key as partner contact are those that did so.
partner_same :
    (k o : ℕ) (r : Row)
    → refers "partner_contact" k (repoint "contact" k o r) ≡ refers "partner_contact" k r
unfolding refers repoint setattr
partner_same k o r =
    if-both (λ (x : Row). names k (x.attrs "partner_contact") ≡ names k (r.attrs "partner_contact"))
      (names k (r.attrs "contact")) _ r refl refl

any_partner :
    (k o : ℕ) (t : List Row)
    → any (λ r. refers "partner_contact" k r) (map (repoint "contact" k o) t)
      ≡ any (λ r. refers "partner_contact" k r) t
any_partner k o [] = refl
any_partner k o (r ∷ t) = rw (partner_same k o r, any_partner k o t) refl

-- The foreign keys with CASCADE that the view does not relate.
abbrev pub strays : Model → List (Model × String)
strays company = (lead, "company") ∷ []
strays contact = (lead, "contact") ∷ (deal, "partner_contact") ∷ []
strays _ = []

-- No row names the key by one of them.
abbrev pub NoStrays : Model → ℕ → Store → Type 0
NoStrays m k s =
    All (λ (x : Model × String). any (λ r. refers x.1 k r) (rows x.0 s) ≡ false) (strays m)

-- The tables before the deletion.
abbrev pub stored : Row → Row → Store → Model → Store
stored orig dup s m =
    let s' = relate_to m (link_of m) (linked m) dup.id orig.id s in
    set_rows m (save (update_fields m dup orig) (rows m s')) s'

module _ (orig dup : Row) (ne : dup.id ≢ orig.id) (s : Store) where
  abbrev behind : Model → Store
  behind m = post_rows m (link_of m) (linked m) orig dup s

  abbrev Relinked : Model → Model → Type 0
  Relinked m n = rows n (behind m) ≡ map (repoint (link_of m) dup.id orig.id) (rows n s)

  abbrev before : Model → Store
  before m = stored orig dup s m

  before-Unnamed-company :
      NoStrays company dup.id s → Unnamed (foreign_keys company) dup.id (before company)
  unfolding relate_to repoint_all foreign_keys rows set_rows linked link_of
  before-Unnamed-company (h, _) =
      let no = λ (t : List Row). any_repointed "company" dup.id orig.id ne t in
      (no s.contacts, (no s.deals, (no s.requests, (no s.emails, (h, tt)))))

  before-Unnamed-contact :
      NoStrays contact dup.id s → Unnamed (foreign_keys contact) dup.id (before contact)
  unfolding relate_to repoint_all foreign_keys rows set_rows linked link_of
  before-Unnamed-contact (h, (g, _)) =
      let no = λ (t : List Row). any_repointed "contact" dup.id orig.id ne t in
      (
        no s.deals,
        (any_partner dup.id orig.id s.deals ∙ g, (no s.requests, (no s.emails, (h, tt)))),
      )

  before-Unnamed-lead : Unnamed (foreign_keys lead) dup.id (before lead)
  unfolding relate_to repoint_all foreign_keys rows set_rows linked link_of
  before-Unnamed-lead =
      let no = λ (t : List Row). any_repointed "lead" dup.id orig.id ne t in
      (no s.deals, (no s.requests, (no s.emails, tt)))

  rows-delete :
      (m n : Model)
      → Unnamed (foreign_keys m) dup.id (before m)
      → rows n (take_along (suc (size (before m))) ((m, dup.id) ∷ []) (before m))
        ≡ rows n (before m)
  rows-delete m n h =
      one_round m n dup.id _ (before m) (Unnamed-taken (foreign_keys m) dup.id (before m) h)
      ∙ ap (rows n) (Unnamed-release_all (foreign_keys m) dup.id (before m) h)

  post_rows-Relinked : (m : Model) → NoStrays m dup.id s → All (Relinked m) (linked m)
  unfolding post_rows relate_to repoint_all delete release_all foreign_keys rows set_rows linked
      link_of
  post_rows-Relinked company h =
      let same = λ (n : Model). rows-delete company n (before-Unnamed-company h) in
      (same deal, (same contact, (same crm_email, (same request, tt))))
  post_rows-Relinked contact h =
      let same = λ (n : Model). rows-delete contact n (before-Unnamed-contact h) in
      (same deal, (same request, (same crm_email, tt)))
  post_rows-Relinked lead h =
      let same = λ (n : Model). rows-delete lead n before-Unnamed-lead in
      (same deal, (same crm_email, (same request, tt)))
  post_rows-Relinked city h =
      let one = λ (n : Model).
        one_round city n dup.id (size (before city)) (before city)
          (no_cascade dup.id (before city)) in
      let same = λ (t : List Row). released "city" dup.id orig.id ne false t in
      (
        one company ∙ same s.companies,
        (one request ∙ same s.requests, (one lead ∙ same s.leads, tt)),
      )
  post_rows-Relinked deal h = tt
  post_rows-Relinked request h = tt
  post_rows-Relinked crm_email h = tt

pub by_id-id : (k : ℕ) (r : Row) (t : List Row) → by_id k t ≡ some r → r.id ≡ k
unfolding by_id
by_id-id k r [] h = cc
by_id-id k r (o ∷ t) h = ground (arith, by_id-id k r t)

-- A view that goes through has found both rows.
chain :
    (F : String → List Model → Row → Row → Store) (g : Option (String × List Model))
    (a b : Option Row) (s : Store)
    → ◌≡◌ {A = Option Store}
        (elim g [
          | none ↦ none
          | some (f, ms) ↦ elim a [
            | none ↦ none
            | some o ↦ elim b [ none ↦ none | some d ↦ some (F f ms o d) ]
          ]
        ])
        (some s)
    → (o : Row) × (d : Row) × (is_some g ≡ true)
      × (a ≡ some o)
      × (b ≡ some d)
      × (F (get_or ("", []) g).0 (get_or ("", []) g).1 o d ≡ s)
chain F none a b s h = cc
chain F (some (f, ms)) none b s h = cc
chain F (some (f, ms)) (some o) none s h = cc
chain F (some (f, ms)) (some o) (some d) s h = (o, d, refl, refl, refl, some-eq h)

pub found :
    (m : Model) (o d : ℕ) (s s' : Store)
    → post m o d s ≡ some s'
    → (orig : Row) × (dup : Row) × (is_some (get_data m) ≡ true)
      × (by_id o (rows m s) ≡ some orig)
      × (by_id d (rows m s) ≡ some dup)
      × (post_rows m (link_of m) (linked m) orig dup s ≡ s')
unfolding post link_of linked
found m o d s s' h =
    chain (λ f ms orig dup. post_rows m f ms orig dup s) (get_data m) (by_id o (rows m s))
      (by_id d (rows m s)) s' h

relinked_at :
    (m : Model) (orig dup : Row) (s s' : Store) (o d : ℕ)
    → orig.id ≡ o
    → dup.id ≡ d
    → d ≢ o
    → NoStrays m d s
    → post_rows m (link_of m) (linked m) orig dup s ≡ s'
    → All (λ n. rows n s' ≡ map (repoint (link_of m) d o) (rows n s)) (linked m)
relinked_at m orig dup s s' o d so sd ne h e =
    let n = subst (λ k. NoStrays m k s) (sym sd) h in
    rw (sym e, sym so, sym sd) (post_rows-Relinked orig dup (λ same. ne (sym sd ∙ same ∙ so)) s m n)

-- Where another object than the duplicate is chosen, and no lead names the duplicate company or contact
-- and no deal has it as partner contact, every row of the related models is still there behind the
-- deletion, and it names the original where it named the duplicate.
pub post_relinked :
    (m : Model) (o d : ℕ) (s s' : Store)
    → d ≢ o
    → NoStrays m d s
    → post m o d s ≡ some s'
    → All (λ n. rows n s' ≡ map (repoint (link_of m) d o) (rows n s)) (linked m)
post_relinked m o d s s' ne n h =
    let (orig, dup, _, p, q, e) = found m o d s s' h in
    relinked_at m orig dup s s' o d (by_id-id o orig (rows m s) p) (by_id-id d dup (rows m s) q) ne
      n e
