-- ===== src/Crm/Duplicates/Recipients/Renamed.antt =====
-- The recipients of the mailings that name a deleted duplicate
-- (crm/views/delete_duplicate_object.py, `relate_to`).
use optima_management.Base.{
  ℕ, ◌≡◌, refl, sym, ap, ◌∙◌, false, List, [], ◌∷◌, ◌++◌, map, ◌==◌, ==_iff, ==_refl, if◌then◌else◌,
  arith, Bool-cases, inl, inr,
}
use mathlib.Core.List.{append-nil, append_assoc}
use optima_management.Base.Lists.{same_text, elem, IsNodup}
use optima_management.Base.Decimal.{show, Digits, show-Digits}
use optima_management.Base.IdList.{join, show_ids}
use optima_management.Crm.Matching.{starts_with, occurs_in}
use optima_management.Crm.Duplicates.Types.{MailingOut}
use optima_management.Crm.Duplicates.{
  sub_from, sub_start, sub_end, ends_with, first_id, inner_id, last_id, re_str, new_ids,
  relate_mailing,
}
use optima_management.Crm.Duplicates.Recipients.{
  tail_text, show_ids-tail, same_text-show, ends_number, sub_end_copy, drop-length, sub_from_copy,
  sub_from-tail, starts_with-append, and_false, rename, inner_ids, not_here,
}

module _ (d o : ℕ) where
  unfoldable end_id : List ℕ → List ℕ
  end_id [] = []
  end_id (i ∷ []) = if d == i then o ∷ [] else i ∷ []
  end_id (i ∷ j ∷ ns) = i ∷ end_id (j ∷ ns)

  key-end :
      (i : ℕ) (ns : List ℕ)
      → ◌≡◌ {A = List ℕ}
          (b',' ∷ sub_end (last_id d) (last_id o) (show i ++ tail_text ns))
          (b',' ∷ (show i ++ sub_end (last_id d) (last_id o) (tail_text ns)))
  key-end i ns =
      ap (λ t. b',' ∷ t) (sub_end_copy (show d) (last_id o) (show i) (tail_text ns) (show-Digits i))

  sub_end-tail :
      (ns : List ℕ) → sub_end (last_id d) (last_id o) (tail_text ns) ≡ tail_text (end_id ns)
  unfolding sub_end tail_text end_id
  sub_end-tail [] = refl
  sub_end-tail (i ∷ []) =
      rw (ends_number (show d) (show i) [] (show-Digits d) (show-Digits i), same_text-show d i)
        (elim (Bool-cases (d == i)) [
          | inl e ↦ rw e (ap (λ t. b',' ∷ t) (sym (append-nil (show o))))
          | inr e ↦ rw e (key-end i [])
        ])
  sub_end-tail (i ∷ j ∷ ns) =
      rw
        (
          ends_number (show d) (show i) (j ∷ ns) (show-Digits d) (show-Digits i),
          and_false (same_text (show d) (show i)),
        )
        (key-end i (j ∷ ns) ∙ ap (λ t. b',' ∷ (show i ++ t)) (sub_end-tail (j ∷ ns)))

  -- The keys that are not the duplicate's stay.
  inner_ids-absent : (ns : List ℕ) → elem d ns ≡ false → inner_ids d o ns ≡ ns
  unfolding inner_ids
  inner_ids-absent [] h = refl
  inner_ids-absent (i ∷ []) h = refl
  inner_ids-absent (i ∷ j ∷ ns) h = ground (arith, inner_ids-absent (j ∷ ns))

  end_id-absent : (ns : List ℕ) → elem d ns ≡ false → end_id ns ≡ ns
  unfolding end_id
  end_id-absent [] h = refl
  end_id-absent (i ∷ []) h = ground arith
  end_id-absent (i ∷ j ∷ ns) h = ground (arith, end_id-absent (j ∷ ns))

  map-rename-absent : (ns : List ℕ) → elem d ns ≡ false → map (rename d o) ns ≡ ns
  map-rename-absent [] h = refl
  map-rename-absent (i ∷ ns) h = ground (arith, map-rename-absent ns)

  end_id-next :
      (i j : ℕ) (ns : List ℕ)
      → end_id (i ∷ inner_ids d o (j ∷ ns)) ≡ i ∷ end_id (inner_ids d o (j ∷ ns))
  unfolding end_id inner_ids
  end_id-next i j [] = refl
  end_id-next i j (k ∷ ns) = ground arith

  end_id-inner_ids : (ns : List ℕ) → IsNodup ns → end_id (inner_ids d o ns) ≡ map (rename d o) ns
  unfolding end_id inner_ids
  end_id-inner_ids [] n = refl
  end_id-inner_ids (i ∷ []) n = ground arith
  end_id-inner_ids (i ∷ j ∷ ns) n = elim (Bool-cases (d == i)) [
    | inl e ↦ ground (
      arith,
      e,
      inner_ids-absent ns,
      end_id-absent (j ∷ ns),
      map-rename-absent (j ∷ ns),
      (==_iff d i).0,
    )
    | inr e ↦ ground (arith, e, end_id-next i j ns, end_id-inner_ids (j ∷ ns) n.1)
  ]

  sub_start_here : (p new rest : List ℕ) → sub_start p new (p ++ rest) ≡ new ++ rest
  unfolding sub_start
  sub_start_here p new rest = rw (starts_with-append p rest, drop-length p rest) refl

  first_here : (k : ℕ) (rest : List ℕ) → first_id k ++ rest ≡ show k ++ (b',' ∷ rest)
  first_here k rest = append_assoc {0} (show k) (b',' ∷ []) rest

  starts_with-sub_start :
      (ids : List ℕ)
      → starts_with (first_id d) ids ≡ false
      → sub_start (first_id d) (first_id o) ids ≡ ids
  unfolding sub_start
  starts_with-sub_start ids h = rw h refl

  rename-ne : (i : ℕ) → (d == i) ≡ false → rename d o i ≡ i
  rename-ne i e = ground arith

  sub_start-first :
      (i j : ℕ) (ns : List ℕ)
      → sub_start (first_id d) (first_id o) (show i ++ tail_text (j ∷ ns))
        ≡ show (rename d o i) ++ tail_text (j ∷ ns)
  unfolding tail_text
  sub_start-first i j ns = elim (Bool-cases (d == i)) [
    | inl e ↦
        let here = sub_start_here (first_id d) (first_id o) (show j ++ tail_text ns) in
        rw (sym ((==_iff d i).0 e), ==_refl d, sym (first_here d (show j ++ tail_text ns)))
          (here ∙ first_here o (show j ++ tail_text ns))
    | inr e ↦
        starts_with-sub_start _ (not_here d o i (j ∷ ns) (rw e refl))
        ∙ ap (λ k. show k ++ tail_text (j ∷ ns)) (sym (rename-ne i e))
  ]

  new_ids-show_ids :
      (i j : ℕ) (ns : List ℕ)
      → IsNodup (i ∷ j ∷ ns)
      → new_ids d o (show_ids (i ∷ j ∷ ns)) ≡ show_ids (map (rename d o) (i ∷ j ∷ ns))
  unfolding new_ids
  new_ids-show_ids i j ns n =
      let k = rename d o i in
      let inner = inner_ids d o (j ∷ ns) in
      ap
        (λ s.
          sub_end (last_id d) (last_id o)
            (sub_from (inner_id d) (inner_id o) 0 (sub_start (first_id d) (first_id o) s)))
        (show_ids-tail i (j ∷ ns))
      ∙ ap (λ s. sub_end (last_id d) (last_id o) (sub_from (inner_id d) (inner_id o) 0 s))
          (sub_start-first i j ns)
      ∙ ap (sub_end (last_id d) (last_id o)) (
          sub_from_copy _ (inner_id o) (show k) _ (show-Digits k)
          ∙ ap (λ t. show k ++ t) (sub_from-tail d o (j ∷ ns)))
      ∙ sub_end_copy (show d) (last_id o) (show k) _ (show-Digits k)
      ∙ ap (λ t. show k ++ t) (sub_end-tail inner ∙ ap tail_text (end_id-inner_ids (j ∷ ns) n.1))
      ∙ sym (show_ids-tail k (map (rename d o) (j ∷ ns)))

  occurs_in-sub_from : (p new ids : List ℕ) → occurs_in p ids ≡ false → sub_from p new 0 ids ≡ ids
  unfolding occurs_in sub_from
  occurs_in-sub_from p new [] h = refl
  occurs_in-sub_from p new (c ∷ ids) h = ground (arith, occurs_in-sub_from p new ids)

  ends_with-sub_end : (p new ids : List ℕ) → ends_with p ids ≡ false → sub_end p new ids ≡ ids
  unfolding ends_with sub_end
  ends_with-sub_end p new [] h = refl
  ends_with-sub_end p new (c ∷ ids) h = ground (arith, ends_with-sub_end p new ids)

  -- The expression of the query lets every change through.
  re_str-new_ids : (ids : List ℕ) → re_str d ids ≡ false → new_ids d o ids ≡ ids
  unfolding re_str new_ids
  re_str-new_ids ids h =
      let none_first = starts_with-sub_start ids (ground arith) in
      let none_inside = occurs_in-sub_from (inner_id d) (inner_id o) ids (ground arith) in
      let none_last = ends_with-sub_end (last_id d) (last_id o) ids (ground arith) in
      rw (none_first, none_inside) none_last

  -- A mailing to several recipients, each listed once, has the original in place of the duplicate.
  pub relate_mailing-show_ids :
      (mo : MailingOut) (i j : ℕ) (ns : List ℕ)
      → IsNodup (i ∷ j ∷ ns)
      → mo.recipient_ids ≡ show_ids (i ∷ j ∷ ns)
      → (relate_mailing d o mo).recipient_ids ≡ show_ids (map (rename d o) (i ∷ j ∷ ns))
  unfolding relate_mailing
  relate_mailing-show_ids mo i j ns n e = elim (Bool-cases (re_str d mo.recipient_ids)) [
    | inl h ↦ rw h (ap (new_ids d o) e ∙ new_ids-show_ids i j ns n)
    | inr h ↦
        rw h
          (sym (re_str-new_ids mo.recipient_ids h) ∙ ap (new_ids d o) e ∙ new_ids-show_ids i j ns n)
  ]

  occurs_in-Digits : (p x : List ℕ) → Digits x → occurs_in (b',' ∷ p) x ≡ false
  unfolding occurs_in starts_with
  occurs_in-Digits p [] h = refl
  occurs_in-Digits p (c ∷ x) h = ground (arith, occurs_in-Digits p x h.1)

  ends_with-Digits : (p x : List ℕ) → Digits x → ends_with (b',' ∷ p) x ≡ false
  unfolding ends_with
  ends_with-Digits p [] h = refl
  ends_with-Digits p (c ∷ x) h = ground (arith, ends_with-Digits p x h.1)

  re_str-show : (i : ℕ) → re_str d (show i) ≡ false
  unfolding re_str
  re_str-show i =
      rw
        (
          first,
          occurs_in-Digits (show d ++ b',' ∷ []) (show i) (show-Digits i),
          ends_with-Digits (show d) (show i) (show-Digits i),
        )
        refl
    where
      first : starts_with (first_id d) (show i) ≡ false
      first =
          ap (starts_with (first_id d)) (sym (append-nil (show i)))
          ∙ (unfold tail_text in not_here d o i [] (and_false (d == i)))

  -- A mailing to one recipient keeps it, be it the duplicate.
  pub relate_mailing_alone :
      (mo : MailingOut) (i : ℕ) → mo.recipient_ids ≡ show_ids (i ∷ []) → relate_mailing d o mo ≡ mo
  unfolding relate_mailing show_ids join
  relate_mailing_alone mo i e = rw (ap (re_str d) e, re_str-show i) refl
