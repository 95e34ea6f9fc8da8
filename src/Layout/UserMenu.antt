-- ===== src/Layout/UserMenu.antt =====
-- `UserMenu` (frontend/src/components/rbac/UserMenu.tsx). Its state is whether it is open.
use kafkaesque.Auth.Guards.{can_access_administration}
use kafkaesque.Ui.{log_out, navigate, Effect}
use kafkaesque.Api.Types.{User}
use kafkaesque.Prelude.{none, ◌∷◌, some, [], List, false, if◌then◌else◌, not, Bool, Option, String}

abbrev pub start : Bool
start = false

-- The listener on `mousedown`; `outside` says that there is a menu and the press was not in it.
unfoldable pub mouse_down : Bool → Bool → Bool
mouse_down outside shown = if outside then false else shown

unfoldable pub toggle : Bool → Bool
toggle shown = not shown

-- The links of the open menu.
unfoldable pub links : Option User → List (String × String)
links none = []
links (some u) =
    ("/profile", "Profile")
    ∷ (if can_access_administration (some u)
        then ("/admin/users", "Users") ∷ ("/admin/roles", "Roles") ∷ []
        else [])

unfoldable pub follow : String → Bool → Bool × List Effect
follow to shown = (false, navigate to ∷ [])

unfoldable pub sign_out : Bool → Bool × List Effect
sign_out shown = (false, log_out ∷ navigate "/login" ∷ [])
