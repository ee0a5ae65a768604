-- ===== src/Tasks/Memos.antt =====
-- Office memos: tasks/models/memo.py, and of tasks/site/memoadmin.py who sees a memo and what a save
-- of its form does. The permissions of the model that Django keeps, and the rows that the parent class
-- lists, are parameters; so are the addresses of the users. Users, deals and dates are numbers; the
-- texts of messages are left out.
pub mod Notified
pub mod Access
use optima_management.Base.{
  ℕ, Bool, true, false, not, ◌&&◌, ◌||◌, Option, none, some, List, [], ◌∷◌, ◌++◌, ◌==◌, is_some,
  if◌then◌else◌,
}
use optima_management.Base.Lists.{elem, filter}

pub data Stage : Type 0 where
  pending postponed reviewed : Stage

pub record Memo : Type 0 where
  pub owner : ℕ
  pub to : ℕ
  pub deal : Option ℕ
  pub draft : Bool
  pub notified : Bool
  pub review_date : Option ℕ
  pub stage : Stage
  pub subscribers : List ℕ
  pub notified_subscribers : List ℕ

pub record User : Type 0 where
  pub id : ℕ
  pub is_superuser : Bool
  pub is_chief : Bool
  pub is_task_operator : Bool

-- `get_queryset`: whether the memo is listed, where the parent class lists it.
unfoldable pub is_listed : User → Memo → Bool
is_listed u m =
    if u.is_superuser
    then true
    else if u.is_chief || u.is_task_operator
    then not (m.draft && not (m.owner == u.id))
    else (m.to == u.id && not m.draft) || (m.owner == u.id || elem u.id m.subscribers)

abbrev pub is_reviewed : Stage → Bool
is_reviewed reviewed = true
is_reviewed _ = false

abbrev pub has_office : User → Bool
has_office u = u.is_chief || (u.is_task_operator || u.is_superuser)

-- `allowed` is what the parent class answers.
unfoldable pub has_change_permission : Bool → User → Memo → Bool
has_change_permission allowed u m =
    if not allowed
    then false
    else if has_office u
    then true
    else if m.owner == u.id
    then not (is_reviewed m.stage)
    else true

unfoldable pub has_delete_permission : Bool → Bool → User → Memo → Bool
unfolding has_change_permission
has_delete_permission allowed may_change u m =
    if not allowed then false else has_change_permission may_change u m

-- `request.user in (obj.owner, obj.to, obj.subscribers.all())`: the third is a query set, and no user
-- equals it.
unfoldable pub has_view_permission : Bool → User → Memo → Bool
has_view_permission allowed u m =
    if not allowed
    then false
    else if not m.draft
    then (m.owner == u.id || m.to == u.id) || has_office u
    else m.owner == u.id

-- The messages and mails of a save.
pub data Message : Type 0 where
  you_received told_subscriber no_email deal_note : ℕ → Message
  subscribers_mail review_mail : List ℕ → Message

-- What the form sends, which of its fields have changed, and whether a task is to be created.
pub record Form : Type 0 where
  pub to : ℕ
  pub deal : Option ℕ
  pub draft : Bool
  pub review_date : Option ℕ
  pub stage : Stage
  pub subscribers : List ℕ
  pub stage_changed : Bool
  pub draft_changed : Bool
  pub subscribers_changed : Bool
  pub create_task : Bool

unfoldable pub fill : Form → Memo → Memo
fill f m = record m {
  to = f.to;
  deal = f.deal;
  draft = f.draft;
  review_date = f.review_date;
  stage = f.stage;
  subscribers = f.subscribers;
}

abbrev pub or_today : ℕ → Option ℕ → Option ℕ
or_today today none = some today
or_today today (some d) = some d

unfoldable pub save_model : ℕ → Form → Memo → Memo
save_model today f m =
    if f.stage_changed && is_reviewed m.stage
    then if f.create_task
      then record m { stage = postponed }
      else record m { review_date = or_today today m.review_date }
    else m

unfoldable pub review_messages : Form → Memo → List Message
review_messages f m =
    if f.stage_changed && is_reviewed m.stage
    then review_mail (m.owner ∷ m.subscribers) ∷ []
    else []

unfoldable pub deal_messages : Bool → Option ℕ → List Message
deal_messages true d = []
deal_messages false none = []
deal_messages false (some d) = deal_note d ∷ []

-- The recipient is told once, by a save of the owner.
unfoldable pub tell_recipient : ℕ → Memo → Memo × List Message
tell_recipient user m =
    if not m.draft && (not m.notified && user == m.owner)
    then (record m { notified = true }, you_received m.to ∷ [])
    else (m, [])

unfoldable pub told : (ℕ → Bool) → List ℕ → List Message
told has_email [] = []
told has_email (u ∷ us) =
    if has_email u
    then told_subscriber u ∷ told has_email us
    else told_subscriber u ∷ no_email u ∷ told has_email us

abbrev pub mail_to : List ℕ → List Message
mail_to [] = []
mail_to (u ∷ us) = subscribers_mail (u ∷ us) ∷ []

abbrev pub new_subscribers : Memo → List ℕ
new_subscribers m = filter (λ u. not (elem u m.notified_subscribers)) m.subscribers

unfoldable pub tell_subscribers : (ℕ → Bool) → Form → Memo → Memo × List Message
unfolding told
tell_subscribers has_email f m =
    if not m.draft && (f.subscribers_changed || f.draft_changed)
    then (
      record m {
        notified_subscribers = m.notified_subscribers ++ filter has_email (new_subscribers m);
      },
      told has_email (new_subscribers m) ++ mail_to (filter has_email (new_subscribers m)),
    )
    else (m, [])

-- `change` says that the memo was there before.
unfoldable pub save_related : (ℕ → Bool) → ℕ → Bool → Form → Memo → Memo × List Message
unfolding review_messages deal_messages tell_recipient tell_subscribers
save_related has_email user change f m =
    let (m', received) = tell_recipient user m in
    let (m'', subscribed) = tell_subscribers has_email f m' in
    (m'', review_messages f m ++ (deal_messages change m.deal ++ (received ++ subscribed)))

-- A save of the form by a user.
unfoldable pub save_form : (ℕ → Bool) → ℕ → ℕ → Bool → Form → Memo → Memo × List Message
unfolding save_related save_model fill
save_form has_email today user change f m =
    save_related has_email user change f (save_model today f (fill f m))
