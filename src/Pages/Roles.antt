-- ===== src/Pages/Roles.antt =====
-- `RolesPage` (frontend/src/pages/admin/RolesPage.tsx).
pub mod Laws
use kafkaesque.Ui.Table.{clickable}
use kafkaesque.Ui.{mutate, success, error, invalidate, toast, Effect}
use kafkaesque.Prelude.{
  or_else, ltb, some, ◌∷◌, [], if◌then◌else◌, not, true, false, ◌&&◌, Bool, List, Option, String,
  none,
}
use kafkaesque.Api.Client.{delete_role}
use kafkaesque.Auth.Guards.{any_of, can, children, fallback, permission_guard}
use kafkaesque.Api.Types.{RoleRecord, User}

pub record RolesState : Type 0 where
  pub editor_role : Option RoleRecord
  pub editor_open : Bool
  pub delete_target : Option RoleRecord

abbrev pub start : RolesState
start = record { editor_role = none; editor_open = false; delete_target = none }

-- The buttons of a role's card: whether each is shown, and whether it is disabled.
pub record CardButtons : Type 0 where
  pub edit_shown : Bool
  pub delete_shown : Bool
  pub delete_disabled : Bool

unfoldable pub card_buttons : Option User → RoleRecord → CardButtons
card_buttons me role = record {
  edit_shown = can me "roles.update";
  delete_shown = can me "roles.delete" && not role.is_system;
  delete_disabled = ltb 0 (or_else role.user_count 0);
}

unfoldable pub open_create : RolesState → RolesState × List Effect
open_create s = (record s { editor_role = none; editor_open = true }, [])

-- The button above the cards, in its guard.
unfoldable pub press_create : Option User → RolesState → RolesState × List Effect
press_create me s = elim (permission_guard me "roles.create" none any_of) [
  | children ↦ open_create s
  | fallback ↦ (s, [])
]

unfoldable pub press_edit : Option User → RoleRecord → RolesState → RolesState × List Effect
press_edit me role s =
    if (card_buttons me role).edit_shown
    then (record s { editor_role = some role; editor_open = true }, [])
    else (s, [])

unfoldable pub close_editor : RolesState → RolesState × List Effect
close_editor s = (record s { editor_open = false }, [])

unfoldable pub press_delete : Option User → RoleRecord → RolesState → RolesState × List Effect
press_delete me role s =
    let b = card_buttons me role in
    if b.delete_shown && clickable b.delete_disabled false
    then (record s { delete_target = some role }, [])
    else (s, [])

-- The confirm button of the dialog, disabled under `remove.isPending`.
unfoldable pub confirm_delete : Bool → RolesState → RolesState × List Effect
confirm_delete pending s = elim s.delete_target [
  | none ↦ (s, [])
  | some role ↦ if clickable false pending then (s, mutate (delete_role role.id) ∷ []) else (s, [])
]

unfoldable pub cancel_delete : RolesState → RolesState × List Effect
cancel_delete s = (record s { delete_target = none }, [])

unfoldable pub deleted : RolesState → RolesState × List Effect
deleted s = (
  record s { delete_target = none },
  invalidate ("roles" ∷ []) ∷ toast success "Role deleted" ∷ [],
)

unfoldable pub failed : String → RolesState → RolesState × List Effect
failed message s = (s, toast error message ∷ [])
