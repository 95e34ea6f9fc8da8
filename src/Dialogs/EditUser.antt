-- ===== src/Dialogs/EditUser.antt =====
-- `EditUserDialog` (frontend/src/components/dialogs/EditUserDialog.tsx).
use kafkaesque.Ui.Table.{clickable}
use kafkaesque.Ui.{mutate, success, error, on_close, invalidate, toast, Effect}
use kafkaesque.Api.Json.{bool, str, object}
use kafkaesque.Prelude.Texts.{trim, is_blank}
use kafkaesque.Api.Transport.{Request}
use kafkaesque.Prelude.{
  false, ◌&&◌, ◌∷◌, [], is_some, or_else, not, some, ◌==◌, Bool, List, Option, String,
  if◌then◌else◌, none, true,
}
use kafkaesque.Api.Client.{update_user}

pub record UserRow : Type 0 where
  pub id : String
  pub display_name : String
  pub email : String
  pub role : String
  pub is_active : Option Bool
  pub last_login : Option String

pub record Form : Type 0 where
  pub display_name : String
  pub email : String
  pub role : String
  pub is_active : Bool

pub record Errors : Type 0 where
  pub display_name : Option String
  pub email : Option String

abbrev pub no_errors : Errors
no_errors = record { display_name = none; email = none }

pub record EditUser : Type 0 where
  pub form : Form
  pub errors : Errors

unfoldable pub start : EditUser
start = record {
  form = record { display_name = ""; email = ""; role = "DEVELOPER"; is_active = true };
  errors = no_errors;
}

-- The effect on `[user?.id, open]`. A missing `is_active` counts as active.
unfoldable pub opened : Option UserRow → Bool → EditUser → EditUser
opened none shown s = s
opened (some u) shown s =
    if shown
    then record {
      form = record {
        display_name = u.display_name;
        email = u.email;
        role = u.role;
        is_active = or_else u.is_active true;
      };
      errors = no_errors;
    }
    else s

-- `set`, with the field as a function on the form: the errors stay.
unfoldable pub set : (Form → Form) → EditUser → EditUser
set patch s = record s { form = patch s.form }

-- The two choices that depend on permissions, `can` being the user's: a disabled control has no
-- handler.
unfoldable pub choose_role : (String → Bool) → String → EditUser → EditUser
choose_role can role s =
    if can "roles.assign" then record s { form = record (s.form) { role = role } } else s

unfoldable pub choose_status : (String → Bool) → String → EditUser → EditUser
choose_status can choice s =
    if can "users.disable"
    then record s { form = record (s.form) { is_active = choice == "active" } }
    else s

unfoldable pub errors_of : Form → Errors
errors_of f = record {
  display_name = if is_blank (trim f.display_name) then some "Full name is required" else none;
  email = if is_blank (trim f.email) then some "Email is required" else none;
}

unfoldable pub is_valid : Errors → Bool
is_valid e = not (is_some e.display_name) && not (is_some e.email)

unfoldable pub request : UserRow → Form → Request
request user f = update_user user.id (
    object (
      ("display_name", str (trim f.display_name))
      ∷ ("email", str (trim f.email))
      ∷ ("role", str f.role)
      ∷ ("is_active", bool f.is_active)
      ∷ []))

-- The button to save; without a user nothing is shown.
unfoldable pub press_save : Option UserRow → Bool → EditUser → EditUser × List Effect
press_save none pending s = (s, [])
press_save (some user) pending s =
    let e = errors_of s.form in
    let t = record s { errors = e } in
    if not (clickable false pending)
    then (s, [])
    else if is_valid e
    then (t, mutate (request user s.form) ∷ [])
    else (t, [])

unfoldable pub updated : EditUser → EditUser × List Effect
updated s = (s, invalidate ("users" ∷ []) ∷ toast success "User updated" ∷ on_close ∷ [])

unfoldable pub failed : String → EditUser → EditUser × List Effect
failed message s = (s, toast error message ∷ [])

unfoldable pub handle_close : Bool → EditUser → EditUser × List Effect
handle_close pending s = if pending then (s, []) else (s, on_close ∷ [])
