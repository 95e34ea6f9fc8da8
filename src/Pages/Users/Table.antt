-- ===== src/Pages/Users/Table.antt =====
-- What the table of users shows (frontend/src/components/rbac/UserTable.tsx).
use kafkaesque.Layout.Badges.{status_label, role_label}
use kafkaesque.Ui.Table.{rows, empty, skeleton, Body}
use kafkaesque.Prelude.Texts.{some_text}
use kafkaesque.Dialogs.EditUser.{UserRow}
use kafkaesque.Prelude.{
  [], true, if◌then◌else◌, ◌∷◌, Option, is_empty, or_else, String, not, Bool, List, some,
}

-- The cells of a row: name, email, role, status, last login.
unfoldable pub user_cells : UserRow → List String
user_cells u =
    or_else (some_text (some u.display_name)) u.email
    ∷ u.email
    ∷ role_label u.role
    ∷ status_label (or_else u.is_active true)
    ∷ or_else u.last_login "—"
    ∷ []

-- The button of a row is there if it has actions.
unfoldable pub has_menu {ℓ} : {A : Type ℓ} → List A → Bool
has_menu actions = not (is_empty actions)

-- Three blocks while the users are loaded, a text where there are none.
unfoldable pub users_body : Bool → String → Option String → List UserRow → Body UserRow
users_body loading title description us =
    if loading then skeleton 3 else if is_empty us then empty title description else rows us
