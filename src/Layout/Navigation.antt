-- ===== src/Layout/Navigation.antt =====
-- The sidebar's navigation (frontend/src/layouts/AppLayout.tsx).
use kafkaesque.Auth.Guards.{can, can_access_administration}
use kafkaesque.Api.Types.{User}
use kafkaesque.Prelude.{
  if◌then◌else◌, true, Bool, [], keep, ◌++◌, none, some, ◌∷◌, List, Option, String,
}

pub record NavItem : Type 0 where
  pub to : String
  pub label : String
  pub permission : Option String

abbrev open_item : String → String → NavItem
open_item to label = record { to = to; label = label; permission = none }

abbrev item : String → String → String → NavItem
item to label permission = record { to = to; label = label; permission = some permission }

unfoldable pub main_nav : List NavItem
main_nav =
    open_item "/" "Dashboard"
    ∷ open_item "/clusters" "Clusters"
    ∷ open_item "/brokers" "Brokers"
    ∷ open_item "/topics" "Topics"
    ∷ open_item "/consumers" "Consumers"
    ∷ open_item "/messages" "Messages"
    ∷ item "/schemas" "Schemas" "schema.read"
    ∷ item "/connect" "Connect" "connect.read"
    ∷ item "/acls" "ACLs" "acl.read"
    ∷ item "/alerts" "Alerts" "alert.manage"
    ∷ item "/audit" "Audit" "audit.read"
    ∷ []

unfoldable pub admin_nav : List NavItem
admin_nav = item "/admin/users" "Users" "users.read" ∷ item "/admin/roles" "Roles" "roles.read" ∷ []

-- `!item.permission || can(item.permission)`
unfoldable pub is_visible : Option User → NavItem → Bool
is_visible me i = elim i.permission [ none ↦ true | some p ↦ can me p ]

unfoldable pub visible_main_nav : Option User → List NavItem
visible_main_nav me = keep (is_visible me) main_nav

-- All items of the sidebar, from the top.
unfoldable pub navigation : Option User → List NavItem
navigation me =
    visible_main_nav me
    ++ (if can_access_administration me then keep (is_visible me) admin_nav else [])
