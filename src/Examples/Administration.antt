-- ===== src/Examples/Administration.antt =====
-- An administrator at the pages of users and roles.
use kafkaesque.Prelude.Texts.{before}
use kafkaesque.Auth.Permissions.{wildcard, match_permission}
use kafkaesque.Auth.Guards.{can, given, effective}
use kafkaesque.Ui.Table.{action, RowAction}
use kafkaesque.Dialogs.EditUser.{UserRow}
use kafkaesque.Prelude.{List, ◌≡◌, ◌||◌, not, refl, Memᴰ, true, ◌∷◌, false, some, All, [], none}
use kafkaesque.Pages.Users
use kafkaesque.Pages.Roles
use kafkaesque.Pages.Users.Laws as UsersLaws
use kafkaesque.Pages.Users.Safety as UsersSafety
use kafkaesque.Pages.Roles.Laws as RolesLaws
use kafkaesque.Api.Types.{User, RoleRecord}

abbrev head : User
head = record {
  id = "u0";
  email = "root@example.org";
  display_name = "Root";
  role = "ADMIN";
  is_active = none;
  last_login_at = none;
  password_changed_at = none;
  created_at = none;
  permissions = some ("users.delete" ∷ "roles.delete" ∷ []);
}

abbrev other : UserRow
other = record {
  id = "u1";
  display_name = "Pat";
  email = "pat@example.org";
  role = "VIEWER";
  is_active = some true;
  last_login = none;
}

abbrev delete_entry : RowAction Users.RowCommand
delete_entry = record (action "Delete user" (Users.RowCommand.ask_delete other)) {
  destructive = true;
  disabled = not (can (some head) "users.delete") || Users.is_self (some head) other;
}

delete_entry_mem : Memᴰ delete_entry (Users.row_actions (some head) other)
unfolding Users.row_actions
delete_entry_mem = Memᴰ.tail (Memᴰ.tail (Memᴰ.tail (Memᴰ.tail (Memᴰ.head refl))))

all_sent-IsAllowed_example : All (UsersSafety.IsAllowed (some head)) (
    UsersSafety.all_sent
      (some head)
      (UsersSafety.Event.pressed other delete_entry delete_entry_mem
        ∷ UsersSafety.Event.confirmed_delete false
        ∷ [])
      Users.start)
all_sent-IsAllowed_example = UsersLaws.all_sent-IsAllowed (some head) (
    UsersSafety.Event.pressed other delete_entry delete_entry_mem
    ∷ UsersSafety.Event.confirmed_delete false
    ∷ [])

abbrev unused : RoleRecord
unused = record {
  id = "ops";
  name = "Ops";
  description = "";
  permissions = [];
  is_system = false;
  user_count = some 0;
  created_at = none;
  updated_at = none;
}

abbrev cards : List RoleRecord
cards = unused ∷ []

all_sent-removable_example : All (RolesLaws.Removes (some head) cards) (
    RolesLaws.all_sent
      (some head)
      cards
      (RolesLaws.Event.delete_pressed unused (Memᴰ.head refl)
        ∷ RolesLaws.Event.confirmed false
        ∷ [])
      Roles.start)
all_sent-removable_example =
    RolesLaws.all_sent-removable (some head) cards (
      RolesLaws.Event.delete_pressed unused (Memᴰ.head refl) ∷ RolesLaws.Event.confirmed false ∷ [])

no_connect : can (some head) "connect.manage" ≡ false
unfolding can given effective match_permission wildcard before
no_connect = refl
