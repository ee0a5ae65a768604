-- ===== src/ResourceRequests/Approval/Sound.antt =====
-- What holds of the tables of the staff requests (resource_requests), and that the writes keep it.
use optima_management.Base.{
  ℕ, ◌+◌, ◌≤◌, ◌≡◌, refl, sym, ap, ◌∙◌, String, Bool, true, false, Option, none, some, List, [],
  ◌∷◌, ◌++◌, arith, is_some, if◌then◌else◌, ◌==◌, ==_iff, Bool-cases, inl, inr, ◌⊎◌,
}
use optima_management.Base.Lists.{All}
use optima_management.Base.Table.{Table, get, put, get-put_self, get-put_ne}
use optima_management.ResourceRequests.Types.{Status, approved, DeliveryRequest, PmoRequest, Db}
use optima_management.ResourceRequests.Approval.{
  ri_number, create_pmo, close, refuse, token_matches,
}

-- How many PMO rows a delivery request has.
abbrev pub rows_of : ℕ → List PmoRequest → ℕ
rows_of k [] = 0
rows_of k (p ∷ ps) = (if p.delivery_request == k then 1 else 0) + rows_of k ps

abbrev pub IsNumbered : PmoRequest → Type 0
IsNumbered p = (m : List ℕ) × (p.ri_no ≡ ri_number p.delivery_request m)

-- There is no such request yet, or its link has not been used.
abbrev pub is_open : Option DeliveryRequest → Bool
is_open none = true
is_open (some d) = is_some d.approval_token

-- A request whose link is open has no PMO row, no request has two, and each RI number is made from
-- the key of its request.
pub record IsAccounted (db : Db) : Type 0 where
  pub open_free : (k : ℕ) → is_open (get k db.deliveries) ≡ true → rows_of k db.pmo_requests ≡ 0
  pub single : (k : ℕ) → rows_of k db.pmo_requests ≤ 1
  pub numbered : All IsNumbered db.pmo_requests

pub rows_of-append :
    (k : ℕ) (ps qs : List PmoRequest) → rows_of k (ps ++ qs) ≡ rows_of k ps + rows_of k qs
rows_of-append k [] qs = omega arith
rows_of-append k (p ∷ ps) qs = omega (arith, rows_of-append k ps qs)

All-append :
    (ps : List PmoRequest) (p : PmoRequest)
    → All IsNumbered ps
    → IsNumbered p
    → All IsNumbered (ps ++ p ∷ [])
All-append [] p h n = (n, tt)
All-append (q ∷ ps) p h n = (h.0, All-append ps p h.1 n)

put-is_open :
    (k id : ℕ) (d : DeliveryRequest) (t : Table DeliveryRequest)
    → is_open (get k (put id d t)) ≡ true
    → ((k ≡ id) × (is_some d.approval_token ≡ true))
      ⊎ (((k == id) ≡ false) × (is_open (get k t) ≡ true))
put-is_open k id d t o = elim (Bool-cases (k == id)) [
  | inl e ↦
      let p = (==_iff k id).0 e in
      inl (
        p,
        sym (ap is_open (get-put_self id d t)) ∙ ap (λ j. is_open (get j (put id d t))) (sym p) ∙ o,
      )
  | inr e ↦ inr (e, sym (ap is_open (get-put_ne k id d t (λ p. ground (arith, p, e)))) ∙ o)
]

-- A row with a token has no PMO row.
pub put-IsAccounted :
    (db : Db) (id : ℕ) (d : DeliveryRequest)
    → IsAccounted db
    → (is_some d.approval_token ≡ true → rows_of id db.pmo_requests ≡ 0)
    → IsAccounted (record db { deliveries = put id d db.deliveries })
put-IsAccounted db id d s h = record {
  open_free = λ k o. elim (put-is_open k id d db.deliveries o) [
    | inl (p, t) ↦ ap (λ j. rows_of j db.pmo_requests) p ∙ h t
    | inr (e, o') ↦ s.open_free k o'
  ];
  single = s.single;
  numbered = s.numbered;
}

pub close-IsAccounted :
    (st : Status) (id : ℕ) (d : DeliveryRequest) (db : Db)
    → IsAccounted db
    → IsAccounted (close st id d db)
unfolding close
close-IsAccounted st id d db s = put-IsAccounted db id _ s (λ h. cc)

-- The request of the new PMO row had none, and its link is closed.
pub approve-IsAccounted :
    (id : ℕ) (d : DeliveryRequest) (p : PmoRequest) (db : Db)
    → p.delivery_request ≡ id
    → IsNumbered p
    → rows_of id db.pmo_requests ≡ 0
    → IsAccounted db
    → IsAccounted (close approved id d (record db { pmo_requests = db.pmo_requests ++ p ∷ [] }))
unfolding close
approve-IsAccounted id d p db e n free s = record {
  open_free = λ k o. elim (put-is_open k id _ db.deliveries o) [
    | inl (q, t) ↦ cc
    | inr (q, o') ↦
        ground (arith, e, q, rows_of-append k db.pmo_requests (p ∷ []), s.open_free k o')
  ];
  single = λ k. elim (Bool-cases (k == id)) [
    | inl q ↦
        let q' = (==_iff k id).0 q in
        ground (arith, e, q', rows_of-append k db.pmo_requests (p ∷ []), free)
    | inr q ↦ ground (arith, e, q, rows_of-append k db.pmo_requests (p ∷ []), s.single k)
  ];
  numbered = All-append db.pmo_requests p s.numbered n;
}

pub create_pmo_lem :
    (p : PmoRequest) (ps qs : List PmoRequest) → create_pmo p ps ≡ some qs → qs ≡ ps ++ p ∷ []
unfolding create_pmo
create_pmo_lem p ps qs h = ground arith

-- A link that is let through is open.
pub refuse-is_open :
    (now : ℕ) (token : String) (d : DeliveryRequest)
    → refuse now token d ≡ none
    → is_some d.approval_token ≡ true
unfolding refuse
refuse-is_open now token d h = go d.approval_token (ground (arith, h))
  where
    go : (o : Option String) → token_matches o token ≡ true → is_some o ≡ true
    go none e = cc
    go (some s) e = refl
