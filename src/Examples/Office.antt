-- ===== src/Examples/Office.antt =====
-- Examples for the admin of the access requests (resource_management).
use optima_management.Base.{◌≡◌, inl, refl, true, false, some, [], ◌∷◌, List}
use optima_management.Base.Table.{get}
use optima_management.Access.Types.{AccessRequest, ok}
use optima_management.Access.Save.{clashes, save, write_row}
use optima_management.Access.Links.{awaits_approver}
use optima_management.Access.Links.Laws.{IsOpen}
use optima_management.Access.Admin.{
  User, Resource, in_some_team, has_delete_permission, save_change, approver_changed,
}
use optima_management.Access.Admin.Reopened.{save_change-IsOpen}
use optima_management.Examples.Requests.{same, env, waiting, db}

abbrev requester : User
requester = record { id = 4; is_superuser = false; email = "r@x" }

abbrev root : User
root = record { id = 1; is_superuser = true; email = "s@x" }

abbrev teams : List Resource
teams = record { id = 2; resource_team_email = "t@x" } ∷ []

no_team : in_some_team teams requester ≡ false
unfolding in_some_team
no_team = refl

may_delete : has_delete_permission teams root waiting ≡ true
unfolding has_delete_permission
may_delete = refl

abbrev form : AccessRequest
form = record waiting { approver_email = some "boss@x" }

new_approver : approver_changed teams root waiting form ≡ true
unfolding approver_changed
new_approver = refl

went : (save_change teams root same same env 7 waiting form db).0 ≡ ok tt
unfolding save_change save write_row clashes
went = refl

sent_example :
    (r' : AccessRequest) × (get 7
        (save_change teams root same same env 7 waiting form db).1.requests
      ≡ some r')
    × IsOpen awaits_approver env.now env.uuid r'
sent_example =
    save_change-IsOpen teams root same same env 7 waiting form db new_approver (inl refl) went
