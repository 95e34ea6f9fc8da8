-- ===== src/Pages/Users/Safety.antt =====
-- What may happen on the page of users, and which of its requests and states are safe.
use kafkaesque.Pages.Users.{
  press_add, close_add, close_edit, close_details, type_password, revoked, was_reset, deleted,
  cancel_delete, cancel_reset, confirm_reset, is_self, UsersState, confirm_delete, press,
  row_actions, run, RowCommand, select, edit, ask_reset, disable, enable, ask_delete, revoke,
  show_audit, failed, disabled, enabled,
}
use kafkaesque.Ui.{sent, Effect}
use kafkaesque.Api.Transport.{Request}
use kafkaesque.Ui.Table.{RowAction}
use kafkaesque.Api.Types.{User}
use kafkaesque.Prelude.{
  [], leb, ◌++◌, String, Memᴰ, false, none, some, true, ◌∷◌, Bool, List, ◌≡◌, Option,
}
use kafkaesque.Api.Client.{
  delete_user, disable_user, enable_user, reset_user_password, revoke_user_sessions,
}
use kafkaesque.Dialogs.AddUser.{text_length}
use kafkaesque.Dialogs.EditUser.{UserRow}
use kafkaesque.Auth.Guards.{can}

module _ (me : Option User) where
  -- What the user and the server do to the page. An entry of a menu comes from a row.
  pub data Event : Type 0 where
    pressed : (u : UserRow) (a : RowAction RowCommand) → Memᴰ a (row_actions me u) → Event
    confirmed_delete confirmed_reset cancelled_reset : Bool → Event
    cancelled_delete answered_delete answered_disable answered_enable : Event
    answered_reset answered_revoke add_pressed add_closed edit_closed details_closed : Event
    row_clicked : UserRow → Event
    typed refused : String → Event

  unfoldable pub on_event : Event → UsersState → UsersState × List Effect
  on_event (pressed u a m) s = let ((menu, t), es) = press a (none, s) in (t, es)
  on_event (confirmed_delete pending) s = confirm_delete pending s
  on_event (confirmed_reset pending) s = confirm_reset pending s
  on_event (cancelled_reset pending) s = cancel_reset pending s
  on_event cancelled_delete s = cancel_delete s
  on_event answered_delete s = deleted s
  on_event answered_disable s = disabled s
  on_event answered_enable s = enabled s
  on_event answered_reset s = was_reset s
  on_event answered_revoke s = revoked s
  on_event add_pressed s = press_add me s
  on_event add_closed s = close_add s
  on_event edit_closed s = close_edit s
  on_event details_closed s = close_details s
  on_event (row_clicked u) s = run (select u) s
  on_event (typed text) s = type_password text s
  on_event (refused message) s = failed message s

  -- The requests of a sequence of events.
  unfoldable pub all_sent : List Event → UsersState → List Request
  all_sent [] s = []
  all_sent (e ∷ es) s = let (t, fs) = on_event e s in sent fs ++ all_sent es t

  -- The requests that the user may send: a deletion or a disabling is of another user, and each needs
  -- its permission; a new password has at least 6 characters.
  pub data IsAllowed : Request → Type 0 where
    deletes :
        (u : UserRow)
        → can me "users.delete" ≡ true
        → is_self me u ≡ false
        → IsAllowed (delete_user u.id)
    disables :
        (u : UserRow)
        → can me "users.disable" ≡ true
        → is_self me u ≡ false
        → IsAllowed (disable_user u.id)
    enables :
        (u : UserRow)
        → can me "users.disable" ≡ true
        → is_self me u ≡ false
        → IsAllowed (enable_user u.id)
    resets :
        (u : UserRow) (password : String)
        → can me "users.reset_password" ≡ true
        → leb 6 (text_length password) ≡ true
        → IsAllowed (reset_user_password u.id password (some "admin reset"))
    revokes : (u : UserRow) → can me "users.update" ≡ true → IsAllowed (revoke_user_sessions u.id)

  -- What the dialogs ask about is allowed.
  unfoldable pub CanDelete : UserRow → Type 0
  CanDelete u = (can me "users.delete" ≡ true) × (is_self me u ≡ false)

  unfoldable pub IsSafe : UsersState → Type 0
  IsSafe s =
      ((u : UserRow) → s.delete_target ≡ some u → CanDelete u)
      × ((u : UserRow) → s.reset_target ≡ some u → can me "users.reset_password" ≡ true)

  unfoldable pub IsSafeCommand : RowCommand → Type 0
  IsSafeCommand (ask_delete u) = CanDelete u
  IsSafeCommand (ask_reset u) = can me "users.reset_password" ≡ true
  IsSafeCommand (disable u) = (can me "users.disable" ≡ true) × (is_self me u ≡ false)
  IsSafeCommand (enable u) = (can me "users.disable" ≡ true) × (is_self me u ≡ false)
  IsSafeCommand (revoke u) = can me "users.update" ≡ true
  IsSafeCommand (select u) = Unit
  IsSafeCommand (edit u) = Unit
  IsSafeCommand show_audit = Unit

  unfoldable pub IsSafeAction : RowAction RowCommand → Type 0
  IsSafeAction a = a.disabled ≡ false → IsSafeCommand a.click
