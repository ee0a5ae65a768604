-- ===== src/Examples/Duplicates.antt =====
-- Examples for the deletion of a duplicate (crm).
use optima_management.Base.{
  ℕ, ◌≡◌, ◌≢◌, refl, String, none, some, [], ◌∷◌, List, map, str_eq, arith, if◌then◌else◌, get_or,
  ◌⊎◌, ◌&&◌,
}
use optima_management.Base.Lists.{All, any}
use optima_management.Base.Decimal.{show}
use optima_management.Base.IdList.{show_ids}
use optima_management.Crm.Duplicates.Types.{
  Value, no_value, key, text, Row, contact, Store, MailingOut, rows,
}
use optima_management.Crm.Duplicates.{
  by_id, post, refers, repoint, relate_mailing, update_fields, fields,
}
use optima_management.Crm.Duplicates.Recipients.{rename}
use optima_management.Crm.Duplicates.Recipients.Renamed.{relate_mailing-show_ids}
use optima_management.Crm.Duplicates.Fields.{lacks, update_fields-attrs}
use optima_management.Crm.Duplicates.Kept.{link_of, linked, NoStrays, post_relinked}
use optima_management.Crm.Duplicates.Kept.Own.{post_own_rows}

abbrev mailing : MailingOut
mailing = record { content_type = contact; recipient_ids = show_ids (3 ∷ 12 ∷ 5 ∷ []) }

mailing_example :
    (relate_mailing 12 4 mailing).recipient_ids ≡ show_ids (map (rename 12 4) (3 ∷ 12 ∷ 5 ∷ []))
mailing_example = relate_mailing-show_ids 12 4 mailing 3 12 (5 ∷ []) (refl, (refl, (refl, tt))) refl

abbrev attrs : List (String × Value) → String → Value
attrs [] f = no_value
attrs ((g, v) ∷ rest) f = if str_eq f g then v else attrs rest f

abbrev row : ℕ → List (String × Value) → Row
row k vs = record { id = k; attrs = attrs vs; m2m = λ f. [] }

abbrev kept : Row
kept = row 4 (("first_name", text (show 1)) ∷ [])

abbrev doubled : Row
doubled = row 12 (("first_name", text (show 2)) ∷ ("phone", text (show 777)) ∷ [])

taken_example : (update_fields contact doubled kept).attrs "phone" ≡ (
    if any (str_eq "phone") (fields contact) && lacks doubled kept "phone"
    then doubled.attrs "phone"
    else kept.attrs "phone")
taken_example = update_fields-attrs contact doubled kept "phone"

abbrev store : Store
store = record {
  companies = [];
  contacts = kept ∷ doubled ∷ [];
  leads = [];
  cities = [];
  deals = row 1 (("contact", key 12) ∷ []) ∷ row 2 (("partner_contact", key 5) ∷ []) ∷ [];
  requests = row 7 (("contact", key 12) ∷ []) ∷ [];
  emails = [];
  mailing_outs = mailing ∷ [];
  files = [];
  mass_contacts = [];
}

abbrev behind : Store
behind = get_or store (post contact 4 12 store)

distinct : ◌≢◌ {A = ℕ} 12 4
distinct h = omega arith

merged : post contact 4 12 store ≡ some behind
unfolding post
merged = refl

no_strays : NoStrays contact 12 store
unfolding refers rows
no_strays = (refl, (refl, tt))

relinked_example :
    All (λ n. rows n behind ≡ map (repoint (link_of contact) 12 4) (rows n store)) (linked contact)
relinked_example = post_relinked contact 4 12 store behind distinct no_strays merged

stays_example :
    (by_id 12 (rows contact behind) ≡ none)
    × (◌≡◌ {A = ℕ} 12 4
        ⊎ ((orig : Row) × (dup : Row) × (by_id 4 (rows contact store) ≡ some orig)
            × (by_id 12 (rows contact store) ≡ some dup)
            × (by_id 4 (rows contact behind) ≡ some (update_fields contact dup orig))))
stays_example = post_own_rows contact 4 12 store behind merged
