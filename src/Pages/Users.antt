-- ===== src/Pages/Users.antt =====
-- `UsersPage` (frontend/src/pages/admin/UsersPage.tsx) and the menu of `UserTable`
-- (frontend/src/components/rbac/UserTable.tsx).
pub mod Safety
pub mod Laws
pub mod Table
use kafkaesque.Api.Types.{PlatformUser, User}
use kafkaesque.Ui.{navigate, error, mutate, success, invalidate, toast, Effect}
use kafkaesque.Prelude.Texts.{pos, negsuc, is_blank, ℤ}
use kafkaesque.Ui.Table.{action, clickable, RowAction}
use kafkaesque.Prelude.{
  leb, ◌/◌, ◌&&◌, ◌||◌, ltb, not, find, true, ◌==◌, ◌∷◌, [], if◌then◌else◌, or_else, some, false, ℕ,
  Bool, List, Option, String, none,
}
use kafkaesque.Api.Client.{
  delete_user, disable_user, enable_user, reset_user_password, revoke_user_sessions,
}
use kafkaesque.Dialogs.AddUser.{text_length}
use kafkaesque.Dialogs.EditUser.{UserRow}
use kafkaesque.Auth.Guards.{can}
use kafkaesque.Prelude.Decimal.{to_text}
use Prim.Native.String.{◌++◌ as ◌<>◌}

module _ (elapsed : String → Option ℤ) (locale_date : String → String) where
  -- `Date.now() - d.getTime()` is `elapsed`, with `none` for NaN, and `d.toLocaleDateString()` is
  -- `locale_date`.
  unfoldable pub format_last_login : Option String → String
  format_last_login none = "—"
  format_last_login (some iso) = if is_blank iso then "—" else elim (elapsed iso) [
    | none ↦ locale_date iso
    | some (negsuc n) ↦ "Just now"
    | some (pos n) ↦
        if ltb n 60000
        then "Just now"
        else if ltb n 3600000
        then to_text (n / 60000) <> " min ago"
        else if ltb n 86400000
        then to_text (n / 3600000) <> " hr ago"
        else locale_date iso
  ]

  unfoldable pub to_row : PlatformUser → UserRow
  to_row u = record {
    id = u.id;
    display_name = u.display_name;
    email = u.email;
    role = u.role;
    is_active = some (or_else u.is_active true);
    last_login = some (format_last_login u.last_login_at);
  }

pub record UsersState : Type 0 where
  pub selected : Option UserRow
  pub add_open : Bool
  pub edit_target : Option UserRow
  pub delete_target : Option UserRow
  pub reset_target : Option UserRow
  pub new_password : String

abbrev pub start : UsersState
start = record {
  selected = none;
  add_open = false;
  edit_target = none;
  delete_target = none;
  reset_target = none;
  new_password = "";
}

pub data RowCommand : Type 0 where
  select edit ask_reset disable enable ask_delete revoke : UserRow → RowCommand
  show_audit : RowCommand

-- `u.id === currentUser?.id`
unfoldable pub is_self : Option User → UserRow → Bool
is_self none u = false
is_self (some me) u = u.id == me.id

-- `rowActions`
unfoldable pub row_actions : Option User → UserRow → List (RowAction RowCommand)
row_actions me u =
    let active = or_else u.is_active false in
    action "View user" (select u)
    ∷ record (action "Edit user" (edit u)) { disabled = not (can me "users.update") }
    ∷ record (action "Reset password" (ask_reset u)) {
      disabled = not (can me "users.reset_password");
    }
    ∷ record {
      label = if active then "Disable account" else "Enable account";
      click = if active then disable u else enable u;
      destructive = false;
      disabled = not (can me "users.disable") || is_self me u;
      disabled_reason = if is_self me u then some "Cannot disable yourself" else none;
    }
    ∷ record (action "Delete user" (ask_delete u)) {
      destructive = true;
      disabled = not (can me "users.delete") || is_self me u;
    }
    ∷ record (action "Revoke sessions" (revoke u)) { disabled = not (can me "users.update") }
    ∷ record (action "View audit activity" show_audit) { disabled = not (can me "audit.read") }
    ∷ []

unfoldable pub run : RowCommand → UsersState → UsersState × List Effect
run (select u) s = (record s { selected = some u }, [])
run (edit u) s = (record s { edit_target = some u }, [])
run (ask_reset u) s = (record s { reset_target = some u; new_password = "" }, [])
run (disable u) s = (s, mutate (disable_user u.id) ∷ [])
run (enable u) s = (s, mutate (enable_user u.id) ∷ [])
run (ask_delete u) s = (record s { delete_target = some u }, [])
run (revoke u) s = (s, mutate (revoke_user_sessions u.id) ∷ [])
run show_audit s = (s, navigate "/audit" ∷ [])

-- The button above the table, in its guard, and the ends of the page's other dialogs.
unfoldable pub press_add : Option User → UsersState → UsersState × List Effect
press_add me s = if can me "users.create" then (record s { add_open = true }, []) else (s, [])

unfoldable pub close_add : UsersState → UsersState × List Effect
close_add s = (record s { add_open = false }, [])

unfoldable pub close_edit : UsersState → UsersState × List Effect
close_edit s = (record s { edit_target = none }, [])

unfoldable pub close_details : UsersState → UsersState × List Effect
close_details s = (record s { selected = none }, [])

-- The menu of `UserTable`: the user's id and the right and bottom end of the button.
abbrev pub UserMenu : Type 0
UserMenu = Option (String × ℕ × ℕ)

unfoldable pub open_user_menu : String → ℕ → ℕ → UserMenu → UserMenu
open_user_menu id right bottom menu = some (id, right, bottom)

-- A click or a scroll anywhere closes it.
unfoldable pub close_user_menu : UserMenu → UserMenu
close_user_menu menu = none

-- `menuActions`: the menu's user is looked up in the rows.
unfoldable pub menu_actions : Option User → List UserRow → UserMenu → List (RowAction RowCommand)
menu_actions me users none = []
menu_actions me users (some (id, right, bottom)) = elim (find (λ u. u.id == id) users) [
  | none ↦ []
  | some u ↦ row_actions me u
]

-- A click on an entry of the menu; a disabled one does nothing.
unfoldable pub press :
    RowAction RowCommand → UserMenu × UsersState → (UserMenu × UsersState) × List Effect
press a (menu, s) =
    if a.disabled then ((menu, s), []) else let (t, es) = run a.click s in ((none, t), es)

-- The confirm button of the dialog to delete, disabled under `remove.isPending`.
unfoldable pub confirm_delete : Bool → UsersState → UsersState × List Effect
confirm_delete pending s = elim s.delete_target [
  | none ↦ (s, [])
  | some u ↦ if clickable false pending then (s, mutate (delete_user u.id) ∷ []) else (s, [])
]

unfoldable pub cancel_delete : UsersState → UsersState × List Effect
cancel_delete s = (record s { delete_target = none }, [])

unfoldable pub type_password : String → UsersState → UsersState × List Effect
type_password text s = (record s { new_password = text }, [])

-- The button to reset: disabled for a short password, and under `resetPw.isPending`.
unfoldable pub confirm_reset : Bool → UsersState → UsersState × List Effect
confirm_reset pending s = elim s.reset_target [
  | none ↦ (s, [])
  | some u ↦
      if clickable (ltb (text_length s.new_password) 6) pending
        && leb 6 (text_length s.new_password)
      then (s, mutate (reset_user_password u.id s.new_password (some "admin reset")) ∷ [])
      else (s, [])
]

-- The button to cancel, and `onClose` of the dialog to reset.
unfoldable pub cancel_reset : Bool → UsersState → UsersState × List Effect
cancel_reset pending s =
    if pending then (s, []) else (record s { reset_target = none; new_password = "" }, [])

refreshed : String → List Effect
refreshed message = invalidate ("users" ∷ []) ∷ toast success message ∷ []

unfoldable pub deleted : UsersState → UsersState × List Effect
unfolding refreshed
deleted s = (record s { delete_target = none }, refreshed "User deleted")

unfoldable pub disabled : UsersState → UsersState × List Effect
unfolding refreshed
disabled s = (s, refreshed "User disabled")

unfoldable pub enabled : UsersState → UsersState × List Effect
unfolding refreshed
enabled s = (s, refreshed "User enabled")

unfoldable pub was_reset : UsersState → UsersState × List Effect
unfolding refreshed
was_reset s = (record s { reset_target = none; new_password = "" }, refreshed "Password reset")

unfoldable pub revoked : UsersState → UsersState × List Effect
revoked s = (s, toast success "Sessions revoked" ∷ [])

unfoldable pub failed : String → UsersState → UsersState × List Effect
failed message s = (s, toast error message ∷ [])
