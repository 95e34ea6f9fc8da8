-- ===== src/Api/Client/Accounts.antt =====
-- `api`: sign-in, users, roles and permissions.
use Prim.Native.String.{◌++◌}
use kafkaesque.Prelude.{Bool, Option, List, [], ◌∷◌, String}
use kafkaesque.Api.Json.{Json, str, object, optional}
use kafkaesque.Api.Transport.{Request}
use kafkaesque.Api.Client.Base.{fetch, poke, send, replace, discard, strings, opt_text, opt_bool}

unfoldable pub auth_config : Request
auth_config = fetch "/api/v1/auth/config"

unfoldable pub login : String → String → Request
login email password =
    send "/api/v1/auth/login" (object (("email", str email) ∷ ("password", str password) ∷ []))

unfoldable pub me : Request
me = fetch "/api/v1/me"

unfoldable pub change_password : String → String → Request
change_password current new =
    send "/api/v1/me/password"
      (object (("current_password", str current) ∷ ("new_password", str new) ∷ []))

unfoldable pub users : Request
users = fetch "/api/v1/users"

unfoldable pub get_user : String → Request
get_user id = fetch ("/api/v1/users/" ++ id)

unfoldable pub create_user : String → String → String → String → Option Bool → Request
create_user email display_name password role is_active = send "/api/v1/users" (
    object (
      ("email", str email)
      ∷ ("display_name", str display_name)
      ∷ ("password", str password)
      ∷ ("role", str role)
      ∷ optional "is_active" (opt_bool is_active) []))

unfoldable pub update_user : String → Json → Request
update_user id body = replace ("/api/v1/users/" ++ id) body

unfoldable pub delete_user : String → Request
delete_user id = discard ("/api/v1/users/" ++ id)

unfoldable pub disable_user : String → Request
disable_user id = poke ("/api/v1/users/" ++ (id ++ "/disable"))

unfoldable pub enable_user : String → Request
enable_user id = poke ("/api/v1/users/" ++ (id ++ "/enable"))

unfoldable pub reset_user_password : String → String → Option String → Request
reset_user_password id password reason =
    send ("/api/v1/users/" ++ (id ++ "/reset-password"))
      (object (("password", str password) ∷ optional "reason" (opt_text reason) []))

unfoldable pub revoke_user_sessions : String → Request
revoke_user_sessions id = poke ("/api/v1/users/" ++ (id ++ "/revoke-sessions"))

unfoldable pub user_audit : String → Request
user_audit id = fetch ("/api/v1/users/" ++ (id ++ "/audit"))

unfoldable pub roles : Request
roles = fetch "/api/v1/roles"

unfoldable pub get_role : String → Request
get_role id = fetch ("/api/v1/roles/" ++ id)

unfoldable pub create_role : Option String → String → Option String → List String → Request
create_role id name description permissions = send "/api/v1/roles" (
    object (
      optional "id" (opt_text id) (
        ("name", str name)
        ∷ optional "description" (opt_text description)
            (("permissions", strings permissions) ∷ []))))

unfoldable pub update_role : String → String → Option String → List String → Request
update_role id name description permissions = replace ("/api/v1/roles/" ++ id) (
    object (
      ("name", str name)
      ∷ optional "description" (opt_text description) (("permissions", strings permissions) ∷ [])))

unfoldable pub delete_role : String → Request
delete_role id = discard ("/api/v1/roles/" ++ id)

unfoldable pub permissions : Request
permissions = fetch "/api/v1/permissions"
