-- ===== src/Rates/Currencies.antt =====
-- The daily update of the currencies in `get_rates` (crm/utils/rates_loader.py), which saves them by
-- `Currency.save` (crm/models/payment.py).
use optima_management.Base.{ℕ, ◌≡◌, true, Option, none, some, [], ◌∷◌, arith, if-both}
use optima_management.Base.Table.{Table, get, AllRows}
use optima_management.Rates.{Currency, one_rate, save_currency}
use optima_management.Rates.Load.{quoted, update_currencies}

-- The rate of the marketing currency to itself is 1.
abbrev pub IsNormal : Currency → Type 0
IsNormal c = c.is_marketing_currency ≡ true → c.rate_to_marketing_currency ≡ one_rate

quoted-IsNormal : (o : Option (ℕ × ℕ)) (c : Currency) → IsNormal c → IsNormal (quoted o c)
unfolding save_currency
quoted-IsNormal none c h = h
quoted-IsNormal (some (s, m)) c h = ground arith

-- Whatever the service replies, the update keeps the rate of every marketing currency to itself at 1.
pub update_currencies-IsNormal :
    (quote : ℕ → Option (ℕ × ℕ)) (t : Table Currency)
    → AllRows IsNormal t
    → AllRows IsNormal (update_currencies quote t)
unfolding update_currencies
update_currencies-IsNormal quote [] h = tt
update_currencies-IsNormal quote ((k, c) ∷ t) (n, h) = (
  if-both IsNormal c.auto_update (quoted (quote k) c) c (quoted-IsNormal (quote k) c n) n,
  update_currencies-IsNormal quote t h,
)

abbrev pub state_rate : Option Currency → Option ℕ
state_rate none = none
state_rate (some c) = some c.rate_to_state_currency

quoted-state :
    (s m : ℕ) (o : Option (ℕ × ℕ)) (c : Currency)
    → o ≡ some (s, m)
    → (quoted o c).rate_to_state_currency ≡ s
unfolding save_currency
quoted-state s m none c h = cc
quoted-state s m (some (a, b)) c h = ground (arith, h)

-- The state rate of a currency that is updated automatically becomes the reply of the service, also
-- where the currency is marked as the state currency.
pub update_currencies-state_rate :
    (quote : ℕ → Option (ℕ × ℕ)) (t : Table Currency) (k s m : ℕ) (c : Currency)
    → get k t ≡ some c
    → c.auto_update ≡ true
    → quote k ≡ some (s, m)
    → state_rate (get k (update_currencies quote t)) ≡ some s
unfolding update_currencies
update_currencies-state_rate quote [] k s m c g a q = cc
update_currencies-state_rate quote ((j, x) ∷ t) k s m c g a q =
    ground
      (arith, g, a, q, quoted-state s m (quote k) c q, update_currencies-state_rate quote t k s m c)
