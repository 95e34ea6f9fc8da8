-- ===== src/Dialogs/AddUser.antt =====
-- `AddUserDialog` (frontend/src/components/dialogs/AddUserDialog.tsx).
use Prim.Native.Char.{code}
use kafkaesque.Ui.{success, error, mutate, on_close, invalidate, toast, Effect}
use kafkaesque.Api.Client.{create_user}
use kafkaesque.Api.Transport.{Request}
use kafkaesque.Prelude.Texts.{trim, is_blank}
use Prim.Native.String.{◌++◌ as ◌<>◌}
use kafkaesque.Prelude.{
  ◌+◌, ◌∷◌, [], true, ◌&&◌, ◌==◌, is_some, ltb, some, List, if◌then◌else◌, not, ℕ, Bool, Option,
  String, none,
}

pub record Form : Type 0 where
  pub email : String
  pub display_name : String
  pub password : String
  pub confirm_password : String
  pub role : String

-- `EMPTY`
unfoldable pub empty : Form
empty = record {
  email = "";
  display_name = "";
  password = "";
  confirm_password = "";
  role = "DEVELOPER";
}

pub record Errors : Type 0 where
  pub email : Option String
  pub display_name : Option String
  pub password : Option String
  pub confirm_password : Option String

abbrev pub no_errors : Errors
no_errors = record { email = none; display_name = none; password = none; confirm_password = none }

pub record AddUser : Type 0 where
  pub form : Form
  pub errors : Errors

-- The effect on `[open]`.
unfoldable pub opened : Bool → AddUser → AddUser
opened shown s = if shown then record { form = empty; errors = no_errors } else s

pub data Field : Type 0 where
  email display_name password confirm_password role : Field

-- `set`: the field's value, and its error is taken back.
unfoldable pub set : Field → String → AddUser → AddUser
set email v s = record {
  form = record (s.form) { email = v };
  errors = record (s.errors) { email = none };
}
set display_name v s = record {
  form = record (s.form) { display_name = v };
  errors = record (s.errors) { display_name = none };
}
set password v s = record {
  form = record (s.form) { password = v };
  errors = record (s.errors) { password = none };
}
set confirm_password v s = record {
  form = record (s.form) { confirm_password = v };
  errors = record (s.errors) { confirm_password = none };
}
set role v s = record s { form = record (s.form) { role = v } }

-- An error where a test fails.
abbrev pub error_if : Bool → String → Option String
error_if b message = if b then some message else none

-- The length of a text counts UTF-16 units: a character beyond the 16-bit plane has two.
unfoldable pub text_length : String → ℕ
text_length String.[] = 0
text_length (String.◌∷◌ c s) = (if ltb (code c) 65536 then 1 else 2) + text_length s

unfoldable pub errors_of : Form → Errors
errors_of f = record {
  email = error_if (is_blank (trim f.email)) "Email is required";
  display_name = error_if (is_blank (trim f.display_name)) "Full name is required";
  password = error_if (ltb (text_length f.password) 6) "Password must be at least 6 characters";
  confirm_password = error_if (not (f.password == f.confirm_password)) "Passwords do not match";
}

unfoldable pub is_valid : Errors → Bool
is_valid e =
    not (is_some e.email)
    && not (is_some e.display_name)
    && not (is_some e.password)
    && not (is_some e.confirm_password)

unfoldable pub request : Form → Request
request f = create_user (trim f.email) (trim f.display_name) f.password f.role (some true)

-- `handleSubmit`, by a button that is disabled while `create.isPending`.
unfoldable pub handle_submit : Bool → AddUser → AddUser × List Effect
handle_submit pending s =
    if pending
    then (s, [])
    else let e = errors_of s.form in
      let t = record s { errors = e } in
      if is_valid e then (t, mutate (request s.form) ∷ []) else (t, [])

unfoldable pub created : String → AddUser → AddUser × List Effect
created address s = (
  s,
  invalidate ("users" ∷ []) ∷ toast success ("User " <> (address <> " created")) ∷ on_close ∷ [],
)

unfoldable pub failed : String → AddUser → AddUser × List Effect
failed message s = (s, toast error message ∷ [])

unfoldable pub handle_close : Bool → AddUser → AddUser × List Effect
handle_close pending s = if pending then (s, []) else (s, on_close ∷ [])
