-- ===== src/Pages/Profile.antt =====
-- `ProfilePage` (frontend/src/pages/ProfilePage.tsx).
pub mod Laws
use kafkaesque.Api.Client.{change_password}
use kafkaesque.Ui.Table.{clickable}
use kafkaesque.Auth.Guards.{effective}
use kafkaesque.Prelude.Texts.{is_blank}
use kafkaesque.Ui.{mutate, log_out, error, success, toast, Effect}
use kafkaesque.Prelude.Decimal.{to_text}
use kafkaesque.Api.Types.{User}
use kafkaesque.Prelude.{
  none, ◌==◌, if◌then◌else◌, leb, ◌∷◌, some, ◌&&◌, [], length, true, not, or_else, Bool, List,
  Option, String,
}
use kafkaesque.Dialogs.AddUser.{text_length}
use Prim.Native.String.{◌++◌ as ◌<>◌}

pub record ProfileState : Type 0 where
  pub current_password : String
  pub new_password : String
  pub confirm_password : String

abbrev pub start : ProfileState
start = record { current_password = ""; new_password = ""; confirm_password = "" }

-- An account without the field is active.
unfoldable pub shown_active : User → Bool
shown_active u = or_else u.is_active true

unfoldable pub permission_line : Option User → String
permission_line me = to_text (length (effective me)) <> " via role"

unfoldable pub can_submit : ProfileState → Bool
can_submit s =
    not (is_blank s.current_password)
    && leb 6 (text_length s.new_password)
    && s.new_password == s.confirm_password

-- The button; without a user there is no page.
unfoldable pub press_change : Option User → Bool → ProfileState → ProfileState × List Effect
press_change none pending s = (s, [])
press_change (some u) pending s =
    if clickable (not (can_submit s)) pending
    then (s, mutate (change_password s.current_password s.new_password) ∷ [])
    else (s, [])

unfoldable pub changed : ProfileState → ProfileState × List Effect
changed s = (start, toast success "Password changed — please sign in again" ∷ log_out ∷ [])

unfoldable pub failed : String → ProfileState → ProfileState × List Effect
failed message s = (s, toast error message ∷ [])
