-- ===== src/Examples/Rights.antt =====
-- What some users may do.
use kafkaesque.Auth.Guards.{given, can}
use kafkaesque.Prelude.Texts.{to_upper}
use kafkaesque.Auth.Permissions.Matching
use kafkaesque.Auth.Permissions.Roles
use kafkaesque.Auth.Permissions.Matching.{match_permission_iff}
use kafkaesque.Prelude.{String, ◌⊎◌, Memᴰ, ◌↔◌, [], refl, true, none, ◌∷◌, ◌≡◌, some}
use kafkaesque.Api.Types.{User}
use Prim.Native.String.{◌++◌ as ◌<>◌}
use kafkaesque.Auth.Permissions.{granted_to, Role, match_permission}

match_permission_iff_example : (match_permission ("users.*" ∷ []) "users.read" ≡ true) ↔ (
    Memᴰ {A = String} "users.read" ("users.*" ∷ [])
    ⊎ ((ns : String) × Matching.IsNamespace ns "users.read" × Memᴰ (ns <> ".*") ("users.*" ∷ [])))
match_permission_iff_example = Matching.match_permission_iff ("users.*" ∷ []) "users.read"

abbrev onlooker : User
onlooker = record {
  id = "u3";
  email = "lou@example.org";
  display_name = "Lou";
  role = "Viewer";
  is_active = none;
  last_login_at = none;
  password_changed_at = none;
  created_at = none;
  permissions = none;
}

onlooker-own : given (some onlooker) ≡ none
unfolding given
onlooker-own = refl

can-builtin_iff_example :
    (can (some onlooker) "topic.delete" ≡ true)
    ↔ ((r : Role) × (to_upper "Viewer" ≡ Roles.role_name r) × Memᴰ "topic.delete" (granted_to r))
can-builtin_iff_example = Roles.can-builtin_iff onlooker "topic.delete" onlooker-own

abbrev auditor : User
auditor = record {
  id = "u2";
  email = "sam@example.org";
  display_name = "Sam";
  role = "VIEWER";
  is_active = none;
  last_login_at = none;
  password_changed_at = none;
  created_at = none;
  permissions = some ("audit.read" ∷ []);
}
