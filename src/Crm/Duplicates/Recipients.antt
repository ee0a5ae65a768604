-- ===== src/Crm/Duplicates/Recipients.antt =====
-- The recipients of the mailings, which hold their keys as one text
-- (crm/views/delete_duplicate_object.py, `relate_to`).
pub mod Renamed
use optima_management.Base.{
  ℕ, zero, suc, ◌-◌, ◌≤◌, ◌+◌, inl, inr, ◌≡◌, refl, sym, ap, ◌∙◌, Bool, true, false, not, ◌&&◌,
  ◌||◌, List, [], ◌∷◌, ◌++◌, map, ◌==◌, ==_iff, ==_refl, if◌then◌else◌, if-both, arith, Bool-cases,
  some-eq, ltb, leb,
}
use mathlib.Core.Path.{subst}
use mathlib.Core.List.{append-nil, append_assoc}
use optima_management.Base.Lists.{
  length, length-append, All, same_text, same_text_refl, elem, IsNodup,
}
use optima_management.Base.Decimal.{show, parse, Digits, show-Digits, parse-show}
use optima_management.Base.IdList.{join, show_ids}
use optima_management.Crm.Matching.{filled, starts_with, occurs_in}
use optima_management.Crm.Duplicates.Types.{MailingOut}
use optima_management.Crm.Duplicates.{
  sub_from, sub_start, sub_end, drop, ends_with, first_id, inner_id, last_id, re_str, new_ids,
  relate_mailing,
}

-- The keys behind the first one, with a comma before each.
unfoldable pub tail_text : List ℕ → List ℕ
tail_text [] = []
tail_text (n ∷ ns) = b',' ∷ show n ++ tail_text ns

pub show_ids-tail : (n : ℕ) (ns : List ℕ) → show_ids (n ∷ ns) ≡ show n ++ tail_text ns
unfolding show_ids join tail_text
show_ids-tail n [] = sym (append-nil (show n))
show_ids-tail n (m ∷ ms) = ap (λ r. show n ++ b',' ∷ r) (show_ids-tail m ms)

-- Texts that are the same.
same_text-eq : (s t : List ℕ) → same_text s t ≡ true → s ≡ t
same_text-eq [] [] h = refl
same_text-eq [] (b ∷ t) h = cc
same_text-eq (a ∷ s) [] h = cc
same_text-eq (a ∷ s) (b ∷ t) h = ground (arith, same_text-eq s t)

pub same_text-show : (d i : ℕ) → same_text (show d) (show i) ≡ (d == i)
same_text-show d i = elim (Bool-cases (d == i)) [
  | inl e ↦ rw (e, (==_iff d i).0 e) (same_text_refl (show i))
  | inr e ↦ elim (Bool-cases (same_text (show d) (show i))) [
    | inl q ↦ absurd (
        let shown = ap parse (same_text-eq _ _ q) in
        let same = some-eq (sym (parse-show d) ∙ shown ∙ parse-show i) in ground (arith, same))
    | inr q ↦ q ∙ sym e
  ]
]

-- A key at the start of a text: the comma behind it ends the comparison.
pub starts_number :
    (x y ns : List ℕ)
    → Digits x
    → Digits y
    → starts_with (x ++ b',' ∷ []) (y ++ tail_text ns) ≡ (same_text x y && filled ns)
unfolding starts_with tail_text
starts_number [] [] [] h k = refl
starts_number [] [] (n ∷ ns) h k = refl
starts_number [] (b ∷ y) ns h k = ground arith
starts_number (a ∷ x) [] [] h k = refl
starts_number (a ∷ x) [] (n ∷ ns) h k = ground arith
starts_number (a ∷ x) (b ∷ y) ns h k = ground (arith, starts_number x y ns h.1 k.1)

pub ends_number :
    (x y ns : List ℕ)
    → Digits x
    → Digits y
    → same_text x (y ++ tail_text ns) ≡ (same_text x y && not (filled ns))
unfolding tail_text
ends_number [] [] [] h k = refl
ends_number [] [] (n ∷ ns) h k = refl
ends_number [] (b ∷ y) ns h k = refl
ends_number (a ∷ x) [] [] h k = refl
ends_number (a ∷ x) [] (n ∷ ns) h k = ground arith
ends_number (a ∷ x) (b ∷ y) ns h k = ground (arith, ends_number x y ns h.1 k.1)

-- Digits are no part of what begins with a comma.
pub sub_from_copy :
    (p new x rest : List ℕ)
    → Digits x
    → sub_from (b',' ∷ p) new 0 (x ++ rest) ≡ x ++ sub_from (b',' ∷ p) new 0 rest
unfolding sub_from starts_with
sub_from_copy p new [] rest h = refl
sub_from_copy p new (c ∷ x) rest h = ground (arith, sub_from_copy p new x rest h.1)

pub sub_end_copy :
    (p new x rest : List ℕ)
    → Digits x
    → sub_end (b',' ∷ p) new (x ++ rest) ≡ x ++ sub_end (b',' ∷ p) new rest
unfolding sub_end
sub_end_copy p new [] rest h = refl
sub_end_copy p new (c ∷ x) rest h = ground (arith, sub_end_copy p new x rest h.1)

sub_from_skip :
    (pat new x rest : List ℕ) → sub_from pat new (length x) (x ++ rest) ≡ sub_from pat new 0 rest
unfolding sub_from
sub_from_skip pat new [] rest = refl
sub_from_skip pat new (c ∷ x) rest = sub_from_skip pat new x rest

pub drop-length : (x rest : List ℕ) → drop (length x) (x ++ rest) ≡ rest
drop-length [] rest = refl
drop-length (c ∷ x) rest = drop-length x rest

pub starts_with-append : (p rest : List ℕ) → starts_with p (p ++ rest) ≡ true
unfolding starts_with
starts_with-append [] rest = refl
starts_with-append (c ∷ p) rest = ground (arith, starts_with-append p rest)

less-one : (k : ℕ) → suc k - 1 ≡ k
less-one k = omega arith

sub_from_here :
    (p new rest : List ℕ)
    → sub_from (b',' ∷ p) new 0 (b',' ∷ p ++ rest) ≡ new ++ sub_from (b',' ∷ p) new 0 rest
unfolding sub_from starts_with
sub_from_here p new rest =
    rw (starts_with-append p rest, less-one (length p))
      (ap (λ t. new ++ t) (sub_from_skip (b',' ∷ p) new p rest))

sub_from_past :
    (p new cs : List ℕ)
    → starts_with p cs ≡ false
    → sub_from (b',' ∷ p) new 0 (b',' ∷ cs) ≡ b',' ∷ sub_from (b',' ∷ p) new 0 cs
unfolding sub_from starts_with
sub_from_past p new cs h = rw h refl

pub and_false : (b : Bool) → (b && false) ≡ false
and_false true = refl
and_false false = refl

module _ (d o : ℕ) where
  -- A key, with the original in place of the duplicate.
  abbrev pub rename : ℕ → ℕ
  rename i = if i == d then o else i

  -- What the substitutions do to the keys behind the first one.
  unfoldable pub inner_ids : List ℕ → List ℕ
  inner_ids [] = []
  inner_ids (i ∷ []) = i ∷ []
  inner_ids (i ∷ j ∷ ns) =
      let next = inner_ids ns in
      let rest = inner_ids (j ∷ ns) in if d == i then o ∷ j ∷ next else i ∷ rest

  pub not_here :
      (i : ℕ) (ns : List ℕ)
      → (d == i && filled ns) ≡ false
      → starts_with (show d ++ b',' ∷ []) (show i ++ tail_text ns) ≡ false
  not_here i ns h =
      starts_number (show d) (show i) ns (show-Digits d) (show-Digits i)
      ∙ ap (λ b. b && filled ns) (same_text-show d i)
      ∙ h

  sub_from-key :
      (i : ℕ) (ns : List ℕ)
      → (d == i && filled ns) ≡ false
      → sub_from (inner_id d) (inner_id o) 0 (tail_text (i ∷ ns))
        ≡ b',' ∷ show i ++ sub_from (inner_id d) (inner_id o) 0 (tail_text ns)
  unfolding tail_text
  sub_from-key i ns h =
      sub_from_past (show d ++ b',' ∷ []) (inner_id o) (show i ++ tail_text ns) (not_here i ns h)
      ∙ ap (λ t. b',' ∷ t)
          (sub_from_copy (show d ++ b',' ∷ []) (inner_id o) (show i) _ (show-Digits i))

  sub_from-inner :
      (j : ℕ) (ns : List ℕ)
      → sub_from (inner_id d) (inner_id o) 0 (tail_text (d ∷ j ∷ ns))
        ≡ b','
          ∷ (show o ++ (b',' ∷ (show j ++ sub_from (inner_id d) (inner_id o) 0 (tail_text ns))))
  unfolding tail_text
  sub_from-inner j ns =
      ap (λ t. sub_from (inner_id d) (inner_id o) 0 (b',' ∷ t))
        (sym (append_assoc {0} (show d) (b',' ∷ []) (show j ++ tail_text ns)))
      ∙ sub_from_here (show d ++ b',' ∷ []) (inner_id o) (show j ++ tail_text ns)
      ∙ ap (λ t. inner_id o ++ t)
          (sub_from_copy (show d ++ b',' ∷ []) (inner_id o) (show j) _ (show-Digits j))
      ∙ ap (λ t. b',' ∷ t) (append_assoc {0} (show o) (b',' ∷ []) _)

  pub sub_from-tail :
      (ns : List ℕ) → sub_from (inner_id d) (inner_id o) 0 (tail_text ns) ≡ tail_text (inner_ids ns)
  unfolding tail_text inner_ids
  sub_from-tail [] = unfold sub_from in refl
  sub_from-tail (i ∷ []) = sub_from-key i [] (and_false (d == i)) ∙ (unfold sub_from in refl)
  sub_from-tail (i ∷ j ∷ ns) = elim (Bool-cases (d == i)) [
    | inl e ↦
        rw (e, sym ((==_iff d i).0 e))
          (sub_from-inner j ns
            ∙ ap (λ t. b',' ∷ (show o ++ (b',' ∷ (show j ++ t)))) (sub_from-tail ns))
    | inr e ↦ rw e (
        sub_from-key i (j ∷ ns) (rw e refl)
        ∙ ap (λ t. b',' ∷ (show i ++ t)) (sub_from-tail (j ∷ ns)))
  ]
