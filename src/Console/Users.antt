-- ===== src/Console/Users.antt =====
-- The page of users in the console, with the two dialogs that it opens.
pub mod Rows
pub mod Events
pub mod Laws
use kafkaesque.Dialogs.AddUser.{text_length}
use kafkaesque.Console.{PageModel}
use kafkaesque.Api.Client.{reset_user_password, delete_user}
use mathlib.Core.Path.{subst}
use kafkaesque.Ui.Table.{clickable, RowAction}
use kafkaesque.Auth.Guards.{disabled, can}
use kafkaesque.Dialogs.EditUser.{start, UserRow}
use kafkaesque.Prelude.{
  and-cases, leb, ◌&&◌, ltb, refl, inr, sym, inl, or_else, Bool-cases, Option-cases, arith,
  if◌then◌else◌, Bool, true, false, ◌≡◌, List, [], ◌∷◌, Option, none, some, Memᴰ, All,
}
use kafkaesque.Api.Types.{User}
use kafkaesque.Ui.{mutate, Effect, sent}
use kafkaesque.Pages.Users.{
  close_details, close_edit, close_add, cancel_reset, confirm_reset, deleted, press_add, show_audit,
  revoke, enable, disable, ask_delete, ask_reset, is_self, edit, select, RowCommand, confirm_delete,
  press, row_actions, run, UsersState,
}
use kafkaesque.Pages.Users.Safety.{
  resets, deletes, revokes, enables, disables, CanDelete, Event, on_event,
}
use kafkaesque.Dialogs.AddUser
use kafkaesque.Dialogs.EditUser
use kafkaesque.Console.Requests.{
  Goes-sends, Goes-idle, Goes, Had-cons, adds_user, edits_user, about_user, Past, Had, IsJustified,
}

-- The forms of the dialogs are in whatever state the user has brought them to.
pub data UsersEvent (me : Option User) : Type 0 where
  on_users : Event me → UsersEvent me
  add_submitted : (pending : Bool) → AddUser.AddUser → UsersEvent me
  edit_saved : (pending : Bool) → EditUser.EditUser → UsersEvent me

-- The dialog to add a user is there while it is open, and the other one while a user is edited.
unfoldable pub users_step :
    (me : Option User) → UsersEvent me → UsersState → UsersState × List Effect
users_step me (on_users e) s = on_event me e s
users_step me (add_submitted pending f) s =
    if s.add_open then (s, (AddUser.handle_submit pending f).1) else (s, [])
users_step me (edit_saved pending f) s = (s, (EditUser.press_save s.edit_target pending f).1)

-- What the dialogs of the page ask about was allowed when they were opened.
pub record UsersIsSafe (past : Past) (s : UsersState) : Type 0 where
  pub deleting :
      (u : UserRow)
      → s.delete_target ≡ some u
      → (me : Option User) × Memᴰ me past.users × CanDelete me u
  pub resetting : (u : UserRow) → s.reset_target ≡ some u → Had past "users.reset_password"
  pub adding : s.add_open ≡ true → Had past "users.create"
  pub editing : (u : UserRow) → s.edit_target ≡ some u → Had past "users.update"

-- What a command of a row may ask for.
abbrev pub IsPermitted : Option User → RowCommand → Type 0
IsPermitted me (edit u) = can me "users.update" ≡ true
IsPermitted me (ask_delete u) = CanDelete me u
IsPermitted me (ask_reset u) = can me "users.reset_password" ≡ true
IsPermitted me (disable u) = (can me "users.disable" ≡ true) × (is_self me u ≡ false)
IsPermitted me (enable u) = (can me "users.disable" ≡ true) × (is_self me u ≡ false)
IsPermitted me (revoke u) = can me "users.update" ≡ true
IsPermitted me (select u) = Unit
IsPermitted me show_audit = Unit
