-- ===== src/Crm/Duplicates.antt =====
-- `DeleteDuplicateObject` (crm/views/delete_duplicate_object.py): what names the duplicate is made to
-- name the original, the fields that the original lacks are taken over, and the duplicate is
-- deleted, with what the `on_delete` of the models' foreign keys says, over any number of steps
-- (crm/models); the tables of other models that name a deleted row are left out.
pub mod Types
pub mod Recipients
pub mod Fields
pub mod Cascade
pub mod Kept
use optima_management.Base.{
  ℕ, String, Bool, true, false, not, ◌&&◌, ◌||◌, Option, none, some, List, [], ◌∷◌, ◌++◌, map, ◌==◌,
  str_eq, ◌-◌, ◌+◌, zero, suc, if◌then◌else◌,
}
use optima_management.Base.Lists.{length, filter, any, same_text, elem, head?}
use optima_management.Base.Decimal.{show}
use optima_management.Crm.Matching.{starts_with, occurs_in}
use Types.{
  Value, no_value, key, text, filled_in, names, Row, setattr, Model, company, contact, lead, city,
  deal, request, crm_email, same_model, Generic, MailingOut, Store, rows, set_rows,
}

-- `get_data`; another model is a KeyError.
unfoldable pub get_data : Model → Option (String × List Model)
get_data company = some ("company", deal ∷ contact ∷ crm_email ∷ request ∷ [])
get_data contact = some ("contact", deal ∷ request ∷ crm_email ∷ [])
get_data lead = some ("lead", deal ∷ crm_email ∷ request ∷ [])
get_data city = some ("city", company ∷ request ∷ lead ∷ [])
get_data _ = none

-- `objects.filter(field=duplicate).update(field=original)`, for one row.
unfoldable pub refers : String → ℕ → Row → Bool
refers f k r = names k (r.attrs f)

unfoldable pub repoint : String → ℕ → ℕ → Row → Row
unfolding refers setattr
repoint f dup orig r = if refers f dup r then setattr f (key orig) r else r

unfoldable pub repoint_all : String → ℕ → ℕ → List Model → Store → Store
unfolding repoint rows set_rows
repoint_all f dup orig [] s = s
repoint_all f dup orig (m ∷ ms) s =
    repoint_all f dup orig ms (set_rows m (map (repoint f dup orig) (rows m s)) s)

-- `re.sub` of a plain text: the occurrences from left to right, which do not overlap. `k` letters
-- of an occurrence are still to be skipped.
unfoldable pub sub_from : List ℕ → List ℕ → ℕ → List ℕ → List ℕ
unfolding starts_with
sub_from pat new k [] = []
sub_from pat new (suc k) (c ∷ cs) = sub_from pat new k cs
sub_from pat new zero (c ∷ cs) =
    let found = sub_from pat new (length pat - 1) cs in
    let rest = sub_from pat new 0 cs in if starts_with pat (c ∷ cs) then new ++ found else c ∷ rest

abbrev pub drop : ℕ → List ℕ → List ℕ
drop zero s = s
drop (suc k) [] = []
drop (suc k) (c ∷ cs) = drop k cs

-- `re.sub` of a text that the expression ties to the start, and to the end.
unfoldable pub sub_start : List ℕ → List ℕ → List ℕ → List ℕ
unfolding starts_with
sub_start pat new s = if starts_with pat s then new ++ drop (length pat) s else s

unfoldable pub sub_end : List ℕ → List ℕ → List ℕ → List ℕ
sub_end pat new [] = []
sub_end pat new (c ∷ cs) =
    let rest = sub_end pat new cs in if same_text pat (c ∷ cs) then new else c ∷ rest

unfoldable pub ends_with : List ℕ → List ℕ → Bool
ends_with pat [] = false
ends_with pat (c ∷ cs) = same_text pat (c ∷ cs) || ends_with pat cs

-- `^id,`, `,id,` and `,id$`.
abbrev pub first_id : ℕ → List ℕ
first_id k = show k ++ b',' ∷ []

abbrev pub inner_id : ℕ → List ℕ
inner_id k = b',' ∷ show k ++ b',' ∷ []

abbrev pub last_id : ℕ → List ℕ
last_id k = b',' ∷ show k

-- `re_str`: the mailings whose recipients are changed.
unfoldable pub re_str : ℕ → List ℕ → Bool
unfolding occurs_in starts_with ends_with
re_str dup ids =
    starts_with (first_id dup) ids || (occurs_in (inner_id dup) ids || ends_with (last_id dup) ids)

-- The three `re.sub` of the loop.
unfoldable pub new_ids : ℕ → ℕ → List ℕ → List ℕ
unfolding sub_start sub_from sub_end
new_ids dup orig ids =
    sub_end (last_id dup) (last_id orig)
      (sub_from (inner_id dup) (inner_id orig) 0 (sub_start (first_id dup) (first_id orig) ids))

unfoldable pub relate_mailing : ℕ → ℕ → MailingOut → MailingOut
unfolding re_str new_ids
relate_mailing dup orig mo =
    if re_str dup mo.recipient_ids
    then record mo { recipient_ids = new_ids dup orig mo.recipient_ids }
    else mo

unfoldable pub is_of : Model → ℕ → Generic → Bool
is_of m k g = same_model g.content_type m && g.object_id == k

unfoldable pub relate_file : Model → ℕ → ℕ → Generic → Generic
unfolding is_of
relate_file m dup orig g = if is_of m dup g then record g { object_id = orig } else g

-- `relate_to`
unfoldable pub relate_to : Model → String → List Model → ℕ → ℕ → Store → Store
unfolding repoint_all relate_mailing relate_file
relate_to m f ms dup orig s =
    let s = repoint_all f dup orig ms s in
    record s {
      mailing_outs = map (relate_mailing dup orig) s.mailing_outs;
      files = map (relate_file m dup orig) s.files;
    }

-- `data[self.model]['fields']` and `['m2m_fields']`
unfoldable pub fields : Model → List String
fields company =
    "address" ∷ "city_name" ∷ "city" ∷ "country" ∷ "description" ∷ "email" ∷ "full_name"
    ∷ "lead_source" ∷ "phone" ∷ "registration_number" ∷ "type" ∷ "was_in_touch" ∷ "website" ∷ []
fields contact =
    "address" ∷ "birth_date" ∷ "city_name" ∷ "city" ∷ "company" ∷ "country" ∷ "description"
    ∷ "email" ∷ "first_name" ∷ "last_name" ∷ "lead_source" ∷ "middle_name" ∷ "mobile"
    ∷ "other_phone" ∷ "phone" ∷ "secondary_email" ∷ "sex" ∷ "skype" ∷ "title" ∷ "token"
    ∷ "was_in_touch" ∷ []
fields lead =
    "address" ∷ "birth_date" ∷ "city_name" ∷ "city" ∷ "company_address" ∷ "company_email"
    ∷ "company_name" ∷ "company_phone" ∷ "country" ∷ "description" ∷ "email" ∷ "first_name"
    ∷ "last_name" ∷ "lead_source" ∷ "middle_name" ∷ "mobile" ∷ "other_phone" ∷ "phone"
    ∷ "secondary_email" ∷ "sex" ∷ "skype" ∷ "title" ∷ "type" ∷ "was_in_touch" ∷ "website" ∷ []
fields city = "name" ∷ "alternative_names" ∷ "country" ∷ []
fields _ = []

unfoldable pub m2m_fields : Model → List String
m2m_fields company = "industry" ∷ "tags" ∷ []
m2m_fields contact = "tags" ∷ []
m2m_fields lead = "industry" ∷ "tags" ∷ []
m2m_fields _ = []

-- One round of the first loop of `update_fields`.
unfoldable pub take_field : Row → String → Row → Row
unfolding setattr
take_field duplicate f original =
    if not (filled_in (original.attrs f)) && filled_in (duplicate.attrs f)
    then setattr f (duplicate.attrs f) original
    else original

unfoldable pub take_fields : Row → List String → Row → Row
unfolding take_field
take_fields duplicate [] original = original
take_fields duplicate (f ∷ fs) original = take_fields duplicate fs (take_field duplicate f original)

-- `add` of related objects: those that are there already stay as they are.
unfoldable pub add : List ℕ → List ℕ → List ℕ
add old [] = old
add old (k ∷ ks) = if elem k old then add old ks else add (old ++ k ∷ []) ks

unfoldable pub take_m2m : Row → List String → Row → Row
unfolding add
take_m2m duplicate [] original = original
take_m2m duplicate (f ∷ fs) original = take_m2m duplicate fs (record original {
  m2m = λ g. if str_eq g f then add (original.m2m f) (duplicate.m2m f) else original.m2m g;
})

unfoldable pub update_fields : Model → Row → Row → Row
unfolding take_fields take_m2m fields m2m_fields
update_fields m duplicate original =
    take_m2m duplicate (m2m_fields m) (take_fields duplicate (fields m) original)

-- `objects.get(id=k)`
unfoldable pub by_id : ℕ → List Row → Option Row
by_id k t = head? (filter (λ r. r.id == k) t)

-- `save`
unfoldable pub save : Row → List Row → List Row
save r = map (λ o. if o.id == r.id then r else o)

-- The foreign keys of crm/models to a model, and whether `on_delete` is CASCADE or SET_NULL.
unfoldable pub foreign_keys : Model → List (Model × String × Bool)
foreign_keys company =
    (contact, "company", true)
    ∷ (deal, "company", true)
    ∷ (request, "company", true)
    ∷ (crm_email, "company", true)
    ∷ (lead, "company", true)
    ∷ []
foreign_keys contact =
    (deal, "contact", true)
    ∷ (deal, "partner_contact", true)
    ∷ (request, "contact", true)
    ∷ (crm_email, "contact", true)
    ∷ (lead, "contact", true)
    ∷ []
foreign_keys deal = (request, "deal", true) ∷ (crm_email, "deal", true) ∷ []
foreign_keys request = (deal, "request", true) ∷ (crm_email, "request", true) ∷ []
foreign_keys lead = (deal, "lead", true) ∷ (request, "lead", false) ∷ (crm_email, "lead", true) ∷ []
foreign_keys city =
    (company, "city", false)
    ∷ (contact, "city", false)
    ∷ (lead, "city", false)
    ∷ (deal, "city", false)
    ∷ (request, "city", false)
    ∷ []
foreign_keys _ = []

unfoldable pub release : String → Bool → ℕ → List Row → List Row
unfolding refers setattr
release f true k = filter (λ r. not (refers f k r))
release f false k = map (λ r. if refers f k r then setattr f no_value r else r)

unfoldable pub release_all : List (Model × String × Bool) → ℕ → Store → Store
unfolding release rows set_rows
release_all [] k s = s
release_all ((m, f, cascade) ∷ fks) k s =
    release_all fks k (set_rows m (release f cascade k (rows m s)) s)

-- The rows that go by CASCADE with the row under the key.
unfoldable pub taken : List (Model × String × Bool) → ℕ → Store → List (Model × ℕ)
unfolding refers release rows set_rows
taken [] k s = []
taken ((m, f, true) ∷ fks) k s =
    map (λ (r : Row). (m, r.id)) (filter (λ r. refers f k r) (rows m s))
    ++ taken fks k (set_rows m (release f true k (rows m s)) s)
taken ((m, f, false) ∷ fks) k s = taken fks k (set_rows m (release f false k (rows m s)) s)

-- The models with a GenericRelation to the files.
abbrev pub has_files : Model → Bool
has_files contact = false
has_files lead = false
has_files city = false
has_files _ = true

unfoldable pub drop_files : Model → ℕ → Store → Store
unfolding is_of
drop_files m k s = record s {
  files = if has_files m then filter (λ g. not (is_of m k g)) s.files else s.files;
}

-- What rows that go take along, and these in their turn. The rows of a round are out of the tables
-- already, so that there are no more rounds than rows.
unfoldable pub take_along : ℕ → List (Model × ℕ) → Store → Store
unfolding release_all foreign_keys taken drop_files
take_along zero ks s = s
take_along (suc n) [] s = s
take_along (suc n) ((m, k) ∷ ks) s =
    take_along n (ks ++ taken (foreign_keys m) k s)
      (drop_files m k (release_all (foreign_keys m) k s))

abbrev pub size : Store → ℕ
size s =
    length s.companies
    + (length s.contacts
        + (length s.leads
            + (length s.cities + (length s.deals + (length s.requests + length s.emails)))))

-- `duplicate.delete()`
unfoldable pub delete : Model → ℕ → Store → Store
unfolding take_along rows set_rows
delete m k s =
    let s = take_along (suc (size s)) ((m, k) ∷ []) s in
    set_rows m (filter (λ r. not (r.id == k)) (rows m s)) s

-- `post` behind a valid form: `none` is DoesNotExist or the KeyError. Rows are read before
-- `relate_to` writes.
unfoldable pub post_rows : Model → String → List Model → Row → Row → Store → Store
unfolding relate_to update_fields save delete rows set_rows is_of
post_rows m f ms original duplicate s =
    let s = relate_to m f ms duplicate.id original.id s in
    let s = set_rows m (save (update_fields m duplicate original) (rows m s)) s in
    let s = delete m duplicate.id s in
    record s { mass_contacts = filter (λ g. not (is_of m duplicate.id g)) s.mass_contacts }

unfoldable pub post : Model → ℕ → ℕ → Store → Option Store
unfolding get_data by_id rows post_rows
post m original_id duplicate_id s = elim (get_data m) [
  | none ↦ none
  | some (f, ms) ↦ elim (by_id original_id (rows m s)) [
    | none ↦ none
    | some original ↦ elim (by_id duplicate_id (rows m s)) [
      | none ↦ none
      | some duplicate ↦ some (post_rows m f ms original duplicate s)
    ]
  ]
]
