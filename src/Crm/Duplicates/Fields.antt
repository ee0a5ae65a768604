-- ===== src/Crm/Duplicates/Fields.antt =====
-- The fields of the object that stays (crm/views/delete_duplicate_object.py, `update_fields`).
use optima_management.Base.{
  ◌≡◌, refl, ap, ◌∙◌, String, Bool, false, not, ◌&&◌, List, [], ◌∷◌, str_eq, eq_iff, if◌then◌else◌,
  Bool-cases, inl, inr, if-both,
}
use mathlib.Core.Path.{subst}
use optima_management.Crm.Duplicates.Recipients.{and_false}
use optima_management.Base.Lists.{any}
use optima_management.Crm.Duplicates.Types.{Value, Row, Model, filled_in, setattr}
use optima_management.Crm.Duplicates.{
  fields, m2m_fields, take_field, take_fields, take_m2m, update_fields,
}

-- What the original lacks and the duplicate has.
abbrev pub lacks : Row → Row → String → Bool
lacks duplicate original f = not (filled_in (original.attrs f)) && filled_in (duplicate.attrs f)

take_field_same :
    (duplicate original : Row) (f : String)
    → (take_field duplicate f original).attrs f
      ≡ (if lacks duplicate original f then duplicate.attrs f else original.attrs f)
unfolding take_field setattr
take_field_same duplicate original f = elim (Bool-cases (lacks duplicate original f)) [
  | inl e ↦ rw (e, (eq_iff f f).1 refl) refl
  | inr e ↦ rw e refl
]

take_field_other :
    (duplicate original : Row) (f g : String)
    → str_eq f g ≡ false
    → (take_field duplicate g original).attrs f ≡ original.attrs f
unfolding take_field setattr
take_field_other duplicate original f g h = elim (Bool-cases (lacks duplicate original g)) [
  | inl e ↦ rw (e, h) refl
  | inr e ↦ rw e refl
]

-- A field that has been looked at is not written again.
taken :
    (d o n : Value) (b : Bool)
    → n ≡ (if not (filled_in o) && filled_in d then d else o)
    → (if b && (not (filled_in n) && filled_in d) then d else n) ≡ n
taken d o n b h = elim (Bool-cases (not (filled_in o) && filled_in d)) [
  | inl e ↦ rw (h, e) (if-both (λ v. v ≡ d) _ d d refl refl)
  | inr e ↦ rw (h, e, e, and_false b) refl
]

take_fields-attrs :
    (duplicate : Row) (fs : List String) (original : Row) (f : String)
    → (take_fields duplicate fs original).attrs f ≡ (
        if any (str_eq f) fs && lacks duplicate original f
        then duplicate.attrs f
        else original.attrs f)
unfolding take_fields
take_fields-attrs duplicate [] original f = refl
take_fields-attrs duplicate (g ∷ fs) original f =
    let rest = take_fields-attrs duplicate fs (take_field duplicate g original) f in
    elim (Bool-cases (str_eq f g)) [
      | inl e ↦
          let same =
            subst
              (λ h.
                (take_field duplicate h original).attrs f
                ≡ (if lacks duplicate original f then duplicate.attrs f else original.attrs f))
              ((eq_iff f g).0 e) (take_field_same duplicate original f) in
          rest ∙ taken (duplicate.attrs f) (original.attrs f) _ _ same ∙ same ∙ rw e refl
      | inr e ↦ rest ∙ rw (e, take_field_other duplicate original f g e) refl
    ]

take_m2m-attrs :
    (duplicate : Row) (fs : List String) (original : Row)
    → (take_m2m duplicate fs original).attrs ≡ original.attrs
unfolding take_m2m
take_m2m-attrs duplicate [] original = refl
take_m2m-attrs duplicate (f ∷ fs) original = take_m2m-attrs duplicate fs _

-- A field of the original stays where it is filled; of the listed fields, one that is not takes the
-- duplicate's value where that is filled.
pub update_fields-attrs :
    (m : Model) (duplicate original : Row) (f : String)
    → (update_fields m duplicate original).attrs f ≡ (
        if any (str_eq f) (fields m) && lacks duplicate original f
        then duplicate.attrs f
        else original.attrs f)
unfolding update_fields
update_fields-attrs m duplicate original f =
    ap (λ h. h f) (take_m2m-attrs duplicate (m2m_fields m) _)
    ∙ take_fields-attrs duplicate (fields m) original f

take_field-id :
    (duplicate original : Row) (f : String) → (take_field duplicate f original).id ≡ original.id
unfolding take_field setattr
take_field-id duplicate original f =
    if-both (λ r. r.id ≡ original.id) (lacks duplicate original f)
      (setattr f (duplicate.attrs f) original) original refl refl

take_fields-id :
    (duplicate : Row) (fs : List String) (original : Row)
    → (take_fields duplicate fs original).id ≡ original.id
unfolding take_fields
take_fields-id duplicate [] original = refl
take_fields-id duplicate (f ∷ fs) original =
    take_fields-id duplicate fs _ ∙ take_field-id duplicate original f

take_m2m-id :
    (duplicate : Row) (fs : List String) (original : Row)
    → (take_m2m duplicate fs original).id ≡ original.id
unfolding take_m2m
take_m2m-id duplicate [] original = refl
take_m2m-id duplicate (f ∷ fs) original = take_m2m-id duplicate fs _

pub update_fields-id :
    (m : Model) (duplicate original : Row) → (update_fields m duplicate original).id ≡ original.id
unfolding update_fields
update_fields-id m duplicate original =
    take_m2m-id duplicate (m2m_fields m) _ ∙ take_fields-id duplicate (fields m) original
