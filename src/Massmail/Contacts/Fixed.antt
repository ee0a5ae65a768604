-- ===== src/Massmail/Contacts/Fixed.antt =====
-- What `fix_masscontacts` (massmail/utils/sendmassmail.py) leaves behind.
use optima_management.Base.{
  ℕ, ◌≡◌, ◌≢◌, refl, ap, ◌∙◌, Bool, true, false, not, ◌&&◌, ◌||◌, some, List, [], ◌∷◌, ◌++◌, arith,
  Bool-cases, inl, inr, ==_iff,
}
use optima_management.Base.Lists.{All, elem, filter, all, elem-filter}
use optima_management.Massmail.Queue.{get_next}
use optima_management.Massmail.Send.{MassContact}
use optima_management.Massmail.Contacts.{
  is_wrong, any_wrong, give, fix_wrong, has_contact, distinct, new_contact, create_missing,
  without_contact, fix_masscontacts,
}

-- The contacts of other objects than the recipients.
abbrev pub others : List ℕ → List MassContact → List MassContact
others ids = filter (λ c. not (elem c.object_id ids))

elem-distinct : (a : ℕ) (ids : List ℕ) → elem a (distinct ids) ≡ elem a ids
unfolding distinct
elem-distinct a [] = refl
elem-distinct a (i ∷ is) = ground (arith, elem-distinct a is, ==_iff a i)

All-elem : (P : ℕ → Type 0) (ids : List ℕ) → ((id : ℕ) → elem id ids ≡ true → P id) → All P ids
All-elem P [] h = tt
All-elem P (i ∷ is) h = (h i (ground arith), All-elem P is (λ id e. h id (ground (arith, e))))

module _ (owned : ℕ → Bool) where
  -- A queue of the owner's accounts, with one at least.
  pub record IsServing (queue : List ℕ) : Type 0 where
    pub accounts : all owned queue ≡ true
    pub some_account : queue ≢ []

  all-snoc :
      (a : ℕ) (q : List ℕ) → all owned q ≡ true → owned a ≡ true → all owned (q ++ a ∷ []) ≡ true
  all-snoc a [] h e = ground (arith, e)
  all-snoc a (x ∷ q) h e = ground (arith, h, e, all-snoc a q)

  snoc-ne-nil : (a : ℕ) (q : List ℕ) → q ++ a ∷ [] ≢ []
  snoc-ne-nil a [] e = cc
  snoc-ne-nil a (x ∷ q) e = cc

  next-IsServing : (a : ℕ) (q : List ℕ) → IsServing (a ∷ q) → IsServing (q ++ a ∷ [])
  next-IsServing a q s = record {
    accounts = all-snoc a q (ground (arith, s.accounts)) (ground (arith, s.accounts));
    some_account = snoc-ne-nil a q;
  }

  record Mended (ids : List ℕ) (cs : List MassContact) (x : List MassContact × List ℕ)
      : Type 0 where
    right : any_wrong owned ids x.0 ≡ false
    kept : (id : ℕ) → has_contact id x.0 ≡ has_contact id cs
    apart : others ids x.0 ≡ others ids cs
    serving : IsServing x.1

  fix_wrong-Mended :
      (ids queue : List ℕ) (cs : List MassContact)
      → IsServing queue
      → Mended ids cs (fix_wrong owned ids queue cs)
  unfolding fix_wrong give get_next
  fix_wrong-Mended ids queue [] s = record {
    right = refl;
    kept = λ id. refl;
    apart = refl;
    serving = s;
  }
  fix_wrong-Mended ids [] (c ∷ cs) s = absurd (s.some_account refl)
  fix_wrong-Mended ids (a ∷ q) (c ∷ cs) s = elim (Bool-cases (is_wrong owned ids c)) [
    | inl w ↦ rw w (
        let h = fix_wrong-Mended ids (q ++ a ∷ []) cs (next-IsServing a q s) in
        record {
          right = ground (arith, h.right, s.accounts);
          kept = λ id. ground (arith, h.kept id);
          apart = ground (arith, h.apart, w);
          serving = h.serving;
        })
    | inr n ↦ rw n (
        let h = fix_wrong-Mended ids (a ∷ q) cs s in
        record {
          right = ground (arith, h.right, n);
          kept = λ id. ground (arith, h.kept id);
          apart = ground (arith, h.apart);
          serving = h.serving;
        })
  ]

  has_contact-append :
      (id : ℕ) (cs ds : List MassContact)
      → has_contact id (cs ++ ds) ≡ (has_contact id cs || has_contact id ds)
  has_contact-append id [] ds = refl
  has_contact-append id (c ∷ cs) ds = ground (arith, has_contact-append id cs ds)

  any_wrong-append :
      (ids : List ℕ) (cs ds : List MassContact)
      → any_wrong owned ids cs ≡ false
      → any_wrong owned ids ds ≡ false
      → any_wrong owned ids (cs ++ ds) ≡ false
  any_wrong-append ids [] ds h e = e
  any_wrong-append ids (c ∷ cs) ds h e = ground (arith, h, any_wrong-append ids cs ds, e)

  others-append :
      (ids : List ℕ) (cs : List MassContact) (d : MassContact)
      → elem d.object_id ids ≡ true
      → others ids (cs ++ d ∷ []) ≡ others ids cs
  others-append ids [] d e = ground (arith, e)
  others-append ids (c ∷ cs) d e = ground (arith, others-append ids cs d e)

  record Completed (ids missing : List ℕ) (cs : List MassContact) (x : List MassContact × List ℕ)
      : Type 0 where
    right : any_wrong owned ids x.0 ≡ false
    reached : (id : ℕ) → has_contact id x.0 ≡ (has_contact id cs || elem id missing)
    apart : others ids x.0 ≡ others ids cs
    serving : IsServing x.1

  create_missing-Completed :
      (objects : ℕ → Bool) (ids queue missing : List ℕ) (cs : List MassContact)
      → IsServing queue
      → any_wrong owned ids cs ≡ false
      → ((a : ℕ) → elem a missing ≡ true → elem a ids ≡ true)
      → Completed ids missing cs (create_missing objects queue missing cs)
  unfolding create_missing new_contact get_next
  create_missing-Completed objects ids queue [] cs s w m = record {
    right = w;
    reached = λ id. ground arith;
    apart = refl;
    serving = s;
  }
  create_missing-Completed objects ids [] (i ∷ is) cs s w m = absurd (s.some_account refl)
  create_missing-Completed objects ids (a ∷ q) (i ∷ is) cs s w m =
      let d : MassContact = record {
        object_id = i;
        email_account = some a;
        massmail = true;
        present = objects i;
      } in
      let mine : owned a ≡ true = ground (arith, s.accounts) in
      let w' : any_wrong owned ids (cs ++ d ∷ []) ≡ false =
        any_wrong-append ids cs (d ∷ []) w (ground (arith, mine)) in
      let h =
        create_missing-Completed objects ids (q ++ a ∷ []) is (cs ++ d ∷ []) (next-IsServing a q s)
          w' (λ b e. m b (ground (arith, e))) in
      record {
        right = h.right;
        reached = λ id.
            ground
              (arith, h.reached id, has_contact-append id cs (d ∷ []), ==_iff i id, ==_iff id i);
        apart = h.apart ∙ others-append ids cs d (m i (ground arith));
        serving = h.serving;
      }

  -- With a queue of accounts of the owner, which is not empty, the repair succeeds: then each
  -- recipient has a contact, every contact of a recipient has an account of the owner, the contacts
  -- of other objects are as before, and the queue still names accounts of the owner. The order of
  -- the set lists the same ids.
  pub fix_masscontacts-Fixed :
      (order : List ℕ → List ℕ) (objects : ℕ → Bool) (ids queue : List ℕ) (cs : List MassContact)
      → ((a : ℕ) (is : List ℕ) → elem a (order is) ≡ elem a is)
      → IsServing queue
      → (cs' : List MassContact) × (queue' : List ℕ) × (fix_masscontacts order objects owned ids
            (some queue)
            cs
          ≡ some (cs', some queue'))
        × All (λ id. has_contact id cs' ≡ true) ids
        × (any_wrong owned ids cs' ≡ false)
        × (others ids cs' ≡ others ids cs)
        × IsServing queue'
  unfolding fix_masscontacts without_contact
  fix_masscontacts-Fixed order objects ids queue cs listed s =
      let (fixed, q) = fix_wrong owned ids queue cs in
      let first = fix_wrong-Mended ids queue cs s in
      let missing : List ℕ = without_contact order ids fixed in
      let absent : (a : ℕ) → elem a missing ≡ (elem a ids && not (has_contact a fixed)) = λ a.
        listed a _
        ∙ elem-filter a (λ id. not (has_contact id fixed)) (distinct ids)
        ∙ ap (◌&& not (has_contact a fixed)) (elem-distinct a ids) in
      let second =
        create_missing-Completed objects ids q missing fixed first.serving first.right
          (λ a e. ground (arith, e, absent a)) in
      (
        (create_missing objects q missing fixed).0,
        (create_missing objects q missing fixed).1,
        refl,
        All-elem _ ids (λ id e. ground (arith, second.reached id, absent id, e)),
        second.right,
        second.apart ∙ first.apart,
        second.serving,
      )
