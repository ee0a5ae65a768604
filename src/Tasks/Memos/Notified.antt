-- ===== src/Tasks/Memos/Notified.antt =====
-- Who is told about a memo, and how often (tasks/site/memoadmin.py).
use optima_management.Base.{
  as_number, ℕ, ◌+◌, ◌≡◌, refl, ap, Bool, true, false, not, ◌&&◌, ◌||◌, Option, none, some, List,
  [], ◌∷◌, ◌++◌, arith, if-both,
}
use optima_management.Base.Lists.{elem, filter, elem-append, elem-filter}
use optima_management.Tasks.Memos.{
  Memo, Form, Message, you_received, told_subscriber, no_email, deal_note, subscribers_mail,
  review_mail, fill, save_model, review_messages, deal_messages, tell_recipient, told, mail_to,
  new_subscribers, tell_subscribers, save_related, save_form,
}

-- How often the recipient is told.
abbrev pub received : List Message → ℕ
received [] = 0
received (you_received u ∷ ms) = 1 + received ms
received (_ ∷ ms) = received ms

-- How many mails of the subscription reach a user.
abbrev pub mailed : ℕ → List Message → ℕ
mailed u [] = 0
mailed u (subscribers_mail us ∷ ms) = as_number (elem u us) + mailed u ms
mailed u (_ ∷ ms) = mailed u ms

-- A save: the day, the user, whether the memo was there before, and the form.
pub record Save : Type 0 where
  pub day : ℕ
  pub user : ℕ
  pub change : Bool
  pub form : Form

abbrev pub save_all : (ℕ → Bool) → List Save → Memo → Memo × List Message
save_all has_email [] m = (m, [])
save_all has_email (s ∷ ss) m =
    let (m', now) = save_form has_email s.day s.user s.change s.form m in
    let (m'', later) = save_all has_email ss m' in (m'', now ++ later)

received-append : (xs ys : List Message) → received (xs ++ ys) ≡ received xs + received ys
received-append [] ys = omega arith
received-append (you_received u ∷ xs) ys = omega (arith, received-append xs ys)
received-append (told_subscriber u ∷ xs) ys = received-append xs ys
received-append (no_email u ∷ xs) ys = received-append xs ys
received-append (deal_note u ∷ xs) ys = received-append xs ys
received-append (subscribers_mail us ∷ xs) ys = received-append xs ys
received-append (review_mail us ∷ xs) ys = received-append xs ys

mailed-append : (u : ℕ) (xs ys : List Message) → mailed u (xs ++ ys) ≡ mailed u xs + mailed u ys
mailed-append u [] ys = omega arith
mailed-append u (you_received v ∷ xs) ys = mailed-append u xs ys
mailed-append u (told_subscriber v ∷ xs) ys = mailed-append u xs ys
mailed-append u (no_email v ∷ xs) ys = mailed-append u xs ys
mailed-append u (deal_note v ∷ xs) ys = mailed-append u xs ys
mailed-append u (subscribers_mail us ∷ xs) ys = omega (arith, mailed-append u xs ys)
mailed-append u (review_mail us ∷ xs) ys = mailed-append u xs ys

told_silent :
    (has_email : ℕ → Bool) (u : ℕ) (us : List ℕ)
    → (received (told has_email us) ≡ 0) × (mailed u (told has_email us) ≡ 0)
unfolding told
told_silent has_email u [] = (refl, refl)
told_silent has_email u (v ∷ us) = ground (arith, told_silent has_email u us)

mail_to_lem :
    (u : ℕ) (us : List ℕ)
    → (received (mail_to us) ≡ 0) × (mailed u (mail_to us) ≡ as_number (elem u us))
mail_to_lem u [] = (refl, refl)
mail_to_lem u (v ∷ us) = (refl, omega arith)

review_silent :
    (u : ℕ) (f : Form) (m : Memo)
    → (received (review_messages f m) ≡ 0) × (mailed u (review_messages f m) ≡ 0)
unfolding review_messages
review_silent u f m = ground arith

deal_silent :
    (u : ℕ) (change : Bool) (d : Option ℕ)
    → (received (deal_messages change d) ≡ 0) × (mailed u (deal_messages change d) ≡ 0)
unfolding deal_messages
deal_silent u true d = (refl, refl)
deal_silent u false none = (refl, refl)
deal_silent u false (some d) = (refl, refl)

-- What the two fields of the memo record of the messages that are sent.
pub record Records (u : ℕ) (m : Memo) (x : Memo × List Message) : Type 0 where
  pub recipient : received x.1 + as_number m.notified ≡ as_number x.0.notified
  pub subscriber :
      mailed u x.1 + as_number (elem u m.notified_subscribers)
      ≡ as_number (elem u x.0.notified_subscribers)

tell_recipient-Records : (u user : ℕ) (m : Memo) → Records u m (tell_recipient user m)
unfolding tell_recipient
tell_recipient-Records u user m = record { recipient = ground arith; subscriber = ground arith }

tell_subscribers-Records :
    (has_email : ℕ → Bool) (u : ℕ) (f : Form) (m : Memo)
    → Records u m (tell_subscribers has_email f m)
unfolding tell_subscribers
tell_subscribers-Records has_email u f m =
    if-both (Records u m) (not m.draft && (f.subscribers_changed || f.draft_changed)) _ (m, [])
      (let new = new_subscribers m in
        let mailing = filter has_email new in
        let silent = told_silent has_email u new in
        let mail = mail_to_lem u mailing in
        let fresh = elem-filter u has_email new in
        let unknown = elem-filter u (λ v. not (elem v m.notified_subscribers)) m.subscribers in
        record {
          recipient =
              omega
                (arith, received-append (told has_email new) (mail_to mailing), silent.0, mail.0);
          subscriber = ground (
            arith,
            mailed-append u (told has_email new) (mail_to mailing),
            silent.1,
            mail.1,
            fresh,
            unknown,
            elem-append u m.notified_subscribers mailing,
          );
        })
      (record { recipient = omega arith; subscriber = omega arith })

save_related-Records :
    (has_email : ℕ → Bool) (u user : ℕ) (change : Bool) (f : Form) (m : Memo)
    → Records u m (save_related has_email user change f m)
unfolding save_related
save_related-Records has_email u user change f m =
    let x = tell_recipient user m in
    let y = tell_subscribers has_email f x.0 in
    let first = tell_recipient-Records u user m in
    let second = tell_subscribers-Records has_email u f x.0 in
    let review = review_messages f m in
    let deal = deal_messages change m.deal in
    record {
      recipient = omega (
        arith,
        received-append review (deal ++ (x.1 ++ y.1)),
        received-append deal (x.1 ++ y.1),
        received-append x.1 y.1,
        (review_silent u f m).0,
        (deal_silent u change m.deal).0,
        first.recipient,
        second.recipient,
      );
      subscriber = omega (
        arith,
        mailed-append u review (deal ++ (x.1 ++ y.1)),
        mailed-append u deal (x.1 ++ y.1),
        mailed-append u x.1 y.1,
        (review_silent u f m).1,
        (deal_silent u change m.deal).1,
        first.subscriber,
        second.subscriber,
      );
    }

save_model_same :
    (today : ℕ) (f : Form) (m : Memo)
    → ((save_model today f m).notified ≡ m.notified)
      × ((save_model today f m).notified_subscribers ≡ m.notified_subscribers)
unfolding save_model
save_model_same today f m = (ground arith, ground arith)

save_form-Records :
    (has_email : ℕ → Bool) (today u user : ℕ) (change : Bool) (f : Form) (m : Memo)
    → Records u m (save_form has_email today user change f m)
unfolding save_form fill
save_form-Records has_email today u user change f m =
    let m' = save_model today f (fill f m) in
    let same = save_model_same today f (fill f m) in
    let r = save_related-Records has_email u user change f m' in
    record {
      recipient = omega (arith, r.recipient, ap as_number same.0);
      subscriber = omega (arith, r.subscriber, ap (λ us. as_number (elem u us)) same.1);
    }

-- Over any saves of a memo by any users, the flag of the memo changes by the number of times that a
-- recipient is told, and whether a user is listed among the notified subscribers by the number of
-- mails of the subscription that the user gets: at most one of either. The messages to subscribers
-- without an address are not counted.
pub save_all-Records :
    (has_email : ℕ → Bool) (u : ℕ) (ss : List Save) (m : Memo)
    → Records u m (save_all has_email ss m)
save_all-Records has_email u [] m = record { recipient = omega arith; subscriber = omega arith }
save_all-Records has_email u (s ∷ ss) m =
    let x = save_form has_email s.day s.user s.change s.form m in
    let now = save_form-Records has_email s.day u s.user s.change s.form m in
    let later = save_all-Records has_email u ss x.0 in
    let rest = (save_all has_email ss x.0).1 in
    record {
      recipient = omega (arith, received-append x.1 rest, now.recipient, later.recipient);
      subscriber = omega (arith, mailed-append u x.1 rest, now.subscriber, later.subscriber);
    }
