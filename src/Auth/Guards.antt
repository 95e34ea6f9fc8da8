-- ===== src/Auth/Guards.antt =====
-- `usePermissions` (frontend/src/auth/usePermissions.ts) and the components that ask it.
pub mod Laws
use kafkaesque.Prelude.{
  ℕ, Bool, true, false, ◌||◌, Option, none, some, List, [], ◌∷◌, String, if◌then◌else◌, any, all,
  is_empty, not,
}
use kafkaesque.Api.Types.{User}
use kafkaesque.Auth.Permissions.{
  match_permission, has_permission, permissions_for_role, Role, normalize_role,
}

-- `user?.role`
abbrev pub role_of : Option User → Option String
role_of none = none
role_of (some u) = some u.role

-- `user?.permissions`, where `?.length` counts something
unfoldable pub given : Option User → Option (List String)
given none = none
given (some u) = elim u.permissions [
  | none ↦ none
  | some ps ↦ if is_empty ps then none else some ps
]

unfoldable pub current_role : Option User → Option Role
current_role user = normalize_role (role_of user)

-- The field `permissions` of the hook's value.
unfoldable pub effective : Option User → List String
effective user = elim (given user) [ none ↦ permissions_for_role (role_of user) | some ps ↦ ps ]

unfoldable pub can : Option User → String → Bool
can user permission = elim (given user) [
  | none ↦ has_permission (role_of user) permission
  | some _ ↦ match_permission (effective user) permission
]

unfoldable pub can_any : Option User → List String → Bool
can_any user required = any (can user) required

unfoldable pub can_all : Option User → List String → Bool
can_all user required = all (can user) required

unfoldable pub can_access_administration : Option User → Bool
can_access_administration user =
    match_permission (effective user) "users.read" || match_permission (effective user) "roles.read"

pub data Mode : Type 0 where
  any_of all_of : Mode

-- What a guard shows.
pub data Shown : Type 0 where
  children fallback : Shown

-- `PermissionGuard`: with a list of permissions, the mode decides and the single one is not read.
unfoldable pub guard_allows : Option User → String → Option (List String) → Mode → Bool
guard_allows user permission none mode = can user permission
guard_allows user permission (some required) all_of = can_all user required
guard_allows user permission (some required) any_of = can_any user required

unfoldable pub permission_guard : Option User → String → Option (List String) → Mode → Shown
permission_guard user permission required mode =
    if not (guard_allows user permission required mode) then fallback else children

-- `ProtectedAction`: the children as they are, or disabled.
pub data Action : Type 0 where
  enabled : Action
  disabled : String → Action

unfoldable pub protected_action : Option User → String → Option String → Action
protected_action user permission hint =
    if can user permission
    then enabled
    else disabled (elim hint [ none ↦ "You do not have permission for this action" | some h ↦ h ])

-- `AdminRoute`, and `Protected` of frontend/src/App.tsx.
pub data Outcome : Type 0 where
  page : Outcome
  spinner : Outcome
  redirect : String → Outcome

unfoldable pub admin_route : Option User → String → Outcome
admin_route user permission = if not (can user permission) then redirect "/" else page
