-- ===== src/Access/Save/Unique.antt =====
-- The ticket numbers of the table of requests under `AccessRequest.save`
-- (resource_management/models.py).
use optima_management.Base.{
  ℕ, ◌≡◌, refl, sym, ◌∙◌, ◌≢◌, ◌⊎◌, inl, inr, String, false, some, List, [], ◌∷◌, arith, Bool-cases,
}
use native.Mathlib.Decide.{ℕ_discrete}
use optima_management.Base.Table.{Table, get, put, get-put_self, get-put_ne}
use optima_management.Access.Types.{AccessRequest, Db, Env, Result, ok, raised}
use optima_management.Access.Ticket.{next_ticket}
use optima_management.Access.Save.{same_ticket, clashes, write_row, save, save_numbered, save_new}

-- Two rows with different keys have different ticket numbers.
abbrev pub IsUnique : Table AccessRequest → Type 0
IsUnique t =
    (j k : ℕ) (a b : AccessRequest)
    → get j t ≡ some a
    → get k t ≡ some b
    → j ≢ k
    → same_ticket a.ticket_number b.ticket_number ≡ false

same_ticket_comm : (s t : List ℕ) → same_ticket s t ≡ same_ticket t s
same_ticket_comm [] [] = refl
same_ticket_comm [] (d ∷ t) = refl
same_ticket_comm (c ∷ s) [] = refl
same_ticket_comm (c ∷ s) (d ∷ t) = ground (arith, same_ticket_comm s t)

clashes-get :
    (k : ℕ) (r : AccessRequest) (t : Table AccessRequest) (j : ℕ) (s : AccessRequest)
    → clashes k r t ≡ false
    → get j t ≡ some s
    → j ≢ k
    → same_ticket r.ticket_number s.ticket_number ≡ false
unfolding clashes
clashes-get k r [] j s c e ne = cc
clashes-get k r ((i, q) ∷ t) j s c e ne = ground (arith, clashes-get k r t j s)

get-put_cases :
    (j k : ℕ) (r a : AccessRequest) (t : Table AccessRequest)
    → get j (put k r t) ≡ some a
    → ((j ≡ k) × (r ≡ a)) ⊎ ((j ≢ k) × (get j t ≡ some a))
get-put_cases j k r a t e = elim (ℕ_discrete j k) [
  | yes p ↦ inl (p, cc (get-put_self k r t))
  | no p ↦ inr (p, sym (get-put_ne j k r t p) ∙ e)
]

put-IsUnique :
    (k : ℕ) (r : AccessRequest) (t : Table AccessRequest)
    → IsUnique t
    → clashes k r t ≡ false
    → IsUnique (put k r t)
put-IsUnique k r t u c i j a b ea eb ne =
    both (get-put_cases i k r a t ea) (get-put_cases j k r b t eb)
  where
    both :
        ((i ≡ k) × (r ≡ a)) ⊎ ((i ≢ k) × (get i t ≡ some a))
        → ((j ≡ k) × (r ≡ b)) ⊎ ((j ≢ k) × (get j t ≡ some b))
        → same_ticket a.ticket_number b.ticket_number ≡ false
    both (inl (p, q)) (inl (p', q')) = absurd (ne (p ∙ sym p'))
    both (inl (p, q)) (inr (n, g)) = rw (← q) (clashes-get k r t j b c g n)
    both (inr (n, g)) (inl (p, q)) =
        rw (← q) (same_ticket_comm a.ticket_number r.ticket_number ∙ clashes-get k r t i a c g n)
    both (inr (n, g)) (inr (n', g')) = u i j a b g g' ne

module _ (process_content_images strip_tags : String → String) where
  write_row-IsUnique :
      (env : Env) (k : ℕ) (r : AccessRequest) (db : Db)
      → IsUnique db.requests
      → IsUnique (write_row process_content_images strip_tags env k r db).1.requests
  unfolding write_row
  write_row-IsUnique env k r db u = elim (Bool-cases (clashes k r db.requests)) [
    | inl clash ↦ rw clash u
    | inr fresh ↦ rw fresh (put-IsUnique k r db.requests u fresh)
  ]

  -- Saving a row, as a new one or over an old one, keeps the ticket numbers apart.
  pub save-IsUnique :
      (env : Env) (k : ℕ) (r : AccessRequest) (db : Db)
      → IsUnique db.requests
      → IsUnique (save process_content_images strip_tags env k r db).1.requests
        × IsUnique (save_new process_content_images strip_tags env k r db).1.requests
  unfolding save save_new
  save-IsUnique env k r db u =
      (write_row-IsUnique env k _ db u, numbered (next_ticket env.date db.requests))
    where
      numbered :
          (n : Result (List ℕ))
          → IsUnique (save_numbered process_content_images strip_tags env k r db n).1.requests
      numbered (raised e) = u
      numbered (ok n) = write_row-IsUnique env k _ db u
