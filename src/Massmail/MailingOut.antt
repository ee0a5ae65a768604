-- ===== src/Massmail/MailingOut.antt =====
-- The ids of a mailing (massmail/models/mailing_out.py): three text fields with the ids of those
-- who wait, were mailed, or failed, as code points. `none` is an exception: a field that holds no
-- list of numbers, or the removal of an id that does not wait.
use optima_management.Base.{
  ◌>>=◌, ℕ, ◌+◌, ◌≡◌, refl, true, false, Option, none, some, List, [], ◌∷◌, ◌++◌, arith,
  if◌then◌else◌,
}
use optima_management.Base.Lists.{elem, remove, count, count-append, count-remove}
use optima_management.Base.IdList.{parse_ids, show_ids, parse_ids-show_ids}

pub data MailingStatus : Type 0 where
  active active_but_error paused interrupted done : MailingStatus

pub record MailingOut : Type 0 where
  pub owner : ℕ
  pub content_type : ℕ
  pub status : MailingStatus
  pub recipients_number : ℕ
  pub recipient_ids : List ℕ
  pub successful_ids : List ℕ
  pub failed_ids : List ℕ
  pub today_count : ℕ
  pub sending_date : Option ℕ

-- `ids.remove(id)`, which raises where the id is missing.
unfoldable pub checked_remove : ℕ → List ℕ → Option (List ℕ)
checked_remove id ids = if elem id ids then some (remove id ids) else none

unfoldable pub remove_recipient_ids : ℕ → MailingOut → Option MailingOut
unfolding checked_remove
remove_recipient_ids id m = do
  ids ← parse_ids m.recipient_ids
  rest ← checked_remove id ids
  some (record m { recipient_ids = show_ids rest })

unfoldable pub move_to_successful_ids : ℕ → MailingOut → Option MailingOut
unfolding remove_recipient_ids
move_to_successful_ids id m = do
  m' ← remove_recipient_ids id m
  ids ← parse_ids m'.successful_ids
  some (record m' { successful_ids = show_ids (ids ++ id ∷ []) })

unfoldable pub move_to_failed_ids : ℕ → MailingOut → Option MailingOut
unfolding remove_recipient_ids
move_to_failed_ids id m = do
  m' ← remove_recipient_ids id m
  ids ← parse_ids m'.failed_ids
  some (record m' { failed_ids = show_ids (ids ++ id ∷ []) })

unfoldable pub move_to_recipient_ids : MailingOut → Option MailingOut
move_to_recipient_ids m = do
  ids ← parse_ids m.recipient_ids
  failed ← parse_ids m.failed_ids
  some (record m { recipient_ids = show_ids (ids ++ failed); failed_ids = [] })

-- The abstract view: the three lists that the fields stand for.
pub record Represents (m : MailingOut) (waiting mailed failed : List ℕ) : Type 0 where
  pub recipient : m.recipient_ids ≡ show_ids waiting
  pub successful : m.successful_ids ≡ show_ids mailed
  pub failure : m.failed_ids ≡ show_ids failed

module _ (id : ℕ) (m : MailingOut) (waiting mailed failed : List ℕ)
    (r : Represents m waiting mailed failed) where
  checked_remove_lem : elem id waiting ≡ true → checked_remove id waiting ≡ some (remove id waiting)
  unfolding checked_remove
  checked_remove_lem h = rw h

  -- A recipient who waits is moved: the id leaves the first list and is appended to the second.
  pub move_to_successful_lem :
      elem id waiting ≡ true
      → (m' : MailingOut) × (move_to_successful_ids id m ≡ some m')
        × Represents m' (remove id waiting) (mailed ++ id ∷ []) failed
  unfolding move_to_successful_ids
  move_to_successful_lem h = (
    record m {
      recipient_ids = show_ids (remove id waiting);
      successful_ids = show_ids (mailed ++ id ∷ []);
    },
    simp (
      r.recipient,
      r.successful,
      parse_ids-show_ids waiting,
      parse_ids-show_ids mailed,
      checked_remove_lem h,
    ),
    record { recipient = refl; successful = refl; failure = r.failure },
  )

  pub move_to_failed_lem :
      elem id waiting ≡ true
      → (m' : MailingOut) × (move_to_failed_ids id m ≡ some m')
        × Represents m' (remove id waiting) mailed (failed ++ id ∷ [])
  unfolding move_to_failed_ids
  move_to_failed_lem h = (
    record m {
      recipient_ids = show_ids (remove id waiting);
      failed_ids = show_ids (failed ++ id ∷ []);
    },
    simp (
      r.recipient,
      r.failure,
      parse_ids-show_ids waiting,
      parse_ids-show_ids failed,
      checked_remove_lem h,
    ),
    record { recipient = refl; successful = r.successful; failure = refl },
  )

  -- An id that does not wait raises in both moves.
  pub move_missing :
      elem id waiting ≡ false
      → (move_to_successful_ids id m ≡ none) × (move_to_failed_ids id m ≡ none)
  unfolding move_to_successful_ids move_to_failed_ids remove_recipient_ids checked_remove
  move_missing h = (
    rw (r.recipient, parse_ids-show_ids waiting, h),
    rw (r.recipient, parse_ids-show_ids waiting, h),
  )

-- The failed recipients are put back behind those who wait, and none of them stays failed.
pub move_to_recipient_lem :
    (m : MailingOut) (waiting mailed failed : List ℕ)
    → Represents m waiting mailed failed
    → (m' : MailingOut) × (move_to_recipient_ids m ≡ some m')
      × Represents m' (waiting ++ failed) mailed []
unfolding move_to_recipient_ids
move_to_recipient_lem m waiting mailed failed r = (
  record m { recipient_ids = show_ids (waiting ++ failed); failed_ids = [] },
  simp (r.recipient, r.failure, parse_ids-show_ids waiting, parse_ids-show_ids failed),
  record { recipient = refl; successful = r.successful; failure = unfold show_ids in refl },
)

-- How often an id stands in the three lists together.
abbrev pub tally : ℕ → List ℕ → List ℕ → List ℕ → ℕ
tally j waiting mailed failed = count j waiting + count j mailed + count j failed

-- No recipient is lost or doubled: a move to the mailed or to the failed recipients, and the return
-- of the failed ones, keep for every id how often it stands in the three lists together.
pub moves_conserve :
    (id : ℕ) (m : MailingOut) (waiting mailed failed : List ℕ)
    → Represents m waiting mailed failed
    → elem id waiting ≡ true
    → ((m' : MailingOut) × (w : List ℕ) × (s : List ℕ) × (move_to_successful_ids id m ≡ some m')
        × Represents m' w s failed
        × ((j : ℕ) → tally j w s failed ≡ tally j waiting mailed failed))
      × ((m' : MailingOut) × (w : List ℕ) × (f : List ℕ) × (move_to_failed_ids id m ≡ some m')
          × Represents m' w mailed f
          × ((j : ℕ) → tally j w mailed f ≡ tally j waiting mailed failed))
      × ((m' : MailingOut) × (w : List ℕ) × (move_to_recipient_ids m ≡ some m')
          × Represents m' w mailed []
          × ((j : ℕ) → tally j w mailed [] ≡ tally j waiting mailed failed))
moves_conserve id m waiting mailed failed r h =
    let (m1, e1, r1) = move_to_successful_lem id m waiting mailed failed r h in
    let (m2, e2, r2) = move_to_failed_lem id m waiting mailed failed r h in
    let (m3, e3, r3) = move_to_recipient_lem m waiting mailed failed r in
    (
      (
        m1,
        remove id waiting,
        mailed ++ id ∷ [],
        e1,
        r1,
        λ j. omega (arith, count-remove id j waiting h, count-append j mailed (id ∷ [])),
      ),
      (
        m2,
        remove id waiting,
        failed ++ id ∷ [],
        e2,
        r2,
        λ j. omega (arith, count-remove id j waiting h, count-append j failed (id ∷ [])),
      ),
      (m3, waiting ++ failed, e3, r3, λ j. omega (arith, count-append j waiting failed)),
    )
