-- ===== src/Auth/Permissions.antt =====
-- frontend/src/auth/permissions.ts. A permission is a text, as it is to `matchPermission`.
pub mod Matching
pub mod Roles
use Prim.Native.String.{◌++◌ as ◌<>◌}
use kafkaesque.Prelude.{
  Bool, true, false, ◌||◌, Option, none, some, List, [], ◌∷◌, ◌++◌, String, ◌==◌, if◌then◌else◌,
}
use kafkaesque.Prelude.Texts.{to_upper, before, includes}

pub data Role : Type 0 where
  admin operator developer viewer : Role

-- `BACKEND_ROLE_PERMISSIONS`
unfoldable pub backend_role_permissions : Role → List String
backend_role_permissions admin =
    "cluster.read" ∷ "cluster.manage" ∷ "topic.read" ∷ "topic.create" ∷ "topic.update"
    ∷ "topic.delete" ∷ "message.read" ∷ "message.publish" ∷ "consumer.read" ∷ "consumer.manage"
    ∷ "schema.read" ∷ "schema.write" ∷ "connect.read" ∷ "connect.manage" ∷ "acl.read" ∷ "acl.manage"
    ∷ "audit.read" ∷ "alert.manage" ∷ []
backend_role_permissions operator =
    "cluster.read" ∷ "cluster.manage" ∷ "topic.read" ∷ "topic.create" ∷ "topic.update"
    ∷ "topic.delete" ∷ "message.read" ∷ "message.publish" ∷ "consumer.read" ∷ "consumer.manage"
    ∷ "schema.read" ∷ "connect.read" ∷ "connect.manage" ∷ "acl.read" ∷ "audit.read" ∷ "alert.manage"
    ∷ []
backend_role_permissions developer =
    "cluster.read" ∷ "topic.read" ∷ "topic.create" ∷ "message.read" ∷ "message.publish"
    ∷ "consumer.read" ∷ "schema.read" ∷ "connect.read" ∷ []
backend_role_permissions viewer =
    "cluster.read" ∷ "topic.read" ∷ "message.read" ∷ "consumer.read" ∷ "schema.read"
    ∷ "connect.read" ∷ "acl.read" ∷ []

-- `FUTURE_IAM_PERMISSIONS`
unfoldable pub future_iam_permissions : Role → Option (List String)
future_iam_permissions admin = some (
    "users.read" ∷ "users.create" ∷ "users.update" ∷ "users.delete" ∷ "users.disable"
    ∷ "users.reset_password" ∷ "roles.read" ∷ "roles.assign" ∷ "system.settings" ∷ [])
future_iam_permissions _ = none

unfoldable pub role_named : String → Option Role
role_named upper =
    if upper == "ADMIN"
    then some admin
    else if upper == "OPERATOR"
    then some operator
    else if upper == "DEVELOPER"
    then some developer
    else if upper == "VIEWER"
    then some viewer
    else none

unfoldable pub normalize_role : Option String → Option Role
unfolding role_named
normalize_role none = none
normalize_role (some role) = role_named (to_upper role)

unfoldable pub granted_to : Role → List String
unfolding backend_role_permissions future_iam_permissions
granted_to r =
    backend_role_permissions r ++ elim (future_iam_permissions r) [ none ↦ [] | some ps ↦ ps ]

unfoldable pub permissions_for_role : Option String → List String
permissions_for_role role = elim (normalize_role role) [ none ↦ [] | some r ↦ granted_to r ]

-- `${ns}.*` for the part of the permission before its first dot
unfoldable pub wildcard : String → String
wildcard required = before "." required <> ".*"

unfoldable pub match_permission : List String → String → Bool
match_permission granted required =
    includes granted required || includes granted (wildcard required)

unfoldable pub has_permission : Option String → String → Bool
has_permission role required = match_permission (permissions_for_role role) required

pub record BuiltinRoleDefinition : Type 0 where
  pub id : Role
  pub name : String
  pub description : String
  pub permissions : List String

-- `BUILTIN_ROLES`
unfoldable pub builtin_roles : List BuiltinRoleDefinition
builtin_roles =
    record {
      id = admin;
      name = "Administrator";
      description = "Full platform access including future user and role management.";
      permissions = permissions_for_role (some "ADMIN");
    }
    ∷ record {
      id = operator;
      name = "Operator";
      description = "Manage Kafka infrastructure. Cannot manage users or roles.";
      permissions = permissions_for_role (some "OPERATOR");
    }
    ∷ record {
      id = developer;
      name = "Developer";
      description = "Inspect clusters, topics, messages; publish and create topics.";
      permissions = permissions_for_role (some "DEVELOPER");
    }
    ∷ record {
      id = viewer;
      name = "Viewer";
      description = "Read-only access to Kafka resources and audit logs.";
      permissions = permissions_for_role (some "VIEWER");
    }
    ∷ []
