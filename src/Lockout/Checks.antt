-- ===== src/Lockout/Checks.antt =====
-- The check in front of the view, in both middlewares of common/middleware.py: what it does to the
-- keys of the user who asks and of another user.
use optima_management.Base.{ℕ, ◌≡◌, refl, sym, ap, ◌∙◌, String, Bool, true, false, str_eq}
use mathlib.Core.Path.{subst}
use optima_management.Lockout.Store.{Kind, Cache, CacheLaws}
use optima_management.Lockout.{before, told}
use optima_management.Lockout.Status.{Status, Tracks, is_locked_out_lem}
use optima_management.Lockout.Frame.{Same-is_locked_out, Same-Tracks}

module _ {C : Type 0} {cache : Cache C} (laws : CacheLaws C cache) (kind : Kind) where
  told-cache : (now : ℕ) (user : String) (x : Bool × C) → (told C cache kind now user x).1 ≡ x.1
  unfolding told
  told-cache now user (true, c) = refl
  told-cache now user (false, c) = refl

  pub before-own :
      (now : ℕ) (user : String) (c : C) (s : Status)
      → Tracks laws kind user now c s
      → (before C cache kind now user c).1 ≡ c
  unfolding before
  before-own now user c s h =
      told-cache now user _
      ∙ ap (λ (x : Bool × C). x.1) (is_locked_out_lem laws kind user now c s h)

  pub before-other :
      (now : ℕ) (user other : String) (apart : str_eq user other ≡ false) (c : C) (s : Status)
      → Tracks laws kind user now c s
      → Tracks laws kind user now (before C cache kind now other c).1 s
  unfolding before
  before-other now user other apart c s h =
      subst (λ c'. Tracks laws kind user now c' s) (sym (told-cache now other _))
        (Same-Tracks laws kind user other apart now c _ s
          (Same-is_locked_out laws kind user other apart now c) h)
