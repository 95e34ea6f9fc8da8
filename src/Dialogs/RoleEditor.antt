-- ===== src/Dialogs/RoleEditor.antt =====
-- `RoleEditorDialog` (frontend/src/components/dialogs/RoleEditorDialog.tsx). A `Set` is the list of its
-- members in the order in which they were added.
use Prim.Native.Char.{code}
use Prim.Native.String.{◌++◌ as ◌<>◌}
use kafkaesque.Api.Client.{create_role, update_role}
use kafkaesque.Ui.Table.{clickable}
use kafkaesque.Api.Transport.{Request}
use kafkaesque.Prelude.Texts.{replace_char, to_upper, some_text, trim, is_blank, includes}
use kafkaesque.Ui.{mutate, error, success, invalidate, on_close, toast, Effect}
use kafkaesque.Api.Types.{PermissionRecord, RoleRecord, PermissionGroup}
use kafkaesque.Prelude.{
  all, eqb, ◌||◌, leb, ltb, ℕ, none, ◌&&◌, is_some, some, ◌++◌, ◌==◌, not, [], if◌then◌else◌, keep,
  map, ◌∷◌, Bool, List, Option, String,
}

unfoldable pub set_add : String → List String → List String
set_add x xs = if includes xs x then xs else xs ++ x ∷ []

unfoldable pub set_delete : String → List String → List String
set_delete x xs = keep (λ y. not (y == x)) xs

-- `new Set(xs)`
add_all : List String → List String → List String
add_all acc [] = acc
add_all acc (x ∷ xs) = add_all (set_add x acc) xs

unfoldable pub set_of : List String → List String
unfolding add_all
set_of xs = add_all [] xs

pub record RoleEditor : Type 0 where
  pub name : String
  pub description : String
  pub role_id : String
  pub selected : List String

-- The effect on `[open, role?.id]`.
unfoldable pub opened : Bool → Option RoleRecord → RoleEditor → RoleEditor
opened shown role s = if not shown then s else elim role [
  | none ↦ record { name = ""; description = ""; role_id = ""; selected = [] }
  | some r ↦ record {
    name = r.name;
    description = r.description;
    role_id = r.id;
    selected = set_of r.permissions;
  }
]

-- The class of /[A-Z0-9_]/.
abbrev is_id_char : ℕ → Bool
is_id_char n = (leb b'A' n && leb n b'Z') || (leb b'0' n && leb n b'9') || eqb n b'_'

-- `replace(/[^A-Z0-9_]/g, '_')`: a character beyond the 16-bit plane is replaced twice.
replaced : String → String
replaced String.[] = ""
replaced (String.◌∷◌ c s) =
    let rest = replaced s in
    if is_id_char (code c)
    then String.◌∷◌ c rest
    else if ltb (code c) 65536
    then "_" <> rest
    else "__" <> rest

-- The field of a new role's identifier.
unfoldable pub type_role_id : String → RoleEditor → RoleEditor
unfolding replaced
type_role_id text s = record s { role_id = replaced (to_upper text) }

unfoldable pub toggle : String → RoleEditor → RoleEditor
toggle id s = record s {
  selected = if includes s.selected id then set_delete id s.selected else set_add id s.selected;
}

-- The loop of `toggleCategory`.
unfoldable pub toggle_each : Bool → List String → List String → List String
toggle_each on [] sel = sel
toggle_each on (id ∷ ids) sel =
    toggle_each on ids (if on then set_add id sel else set_delete id sel)

unfoldable pub toggle_category : PermissionGroup → Bool → RoleEditor → RoleEditor
toggle_category group on s = record s {
  selected = toggle_each on (map (λ p. p.id) group.permissions) s.selected;
}

-- The button of a category: what it calls `toggleCategory` with, and its label.
unfoldable pub all_on : PermissionGroup → RoleEditor → Bool
all_on group s = all (λ p. includes s.selected p.id) group.permissions

unfoldable pub press_category : PermissionGroup → RoleEditor → RoleEditor
press_category group s = toggle_category group (not (all_on group s)) s

unfoldable pub category_label : PermissionGroup → RoleEditor → String
category_label group s = if all_on group s then "Clear all" else "Select all"

-- The label of a permission's checkbox.
unfoldable pub action_label : PermissionRecord → String
action_label p = replace_char "_" " " p.action

unfoldable pub type_name : String → RoleEditor → RoleEditor
type_name text s = record s { name = text }

unfoldable pub type_description : String → RoleEditor → RoleEditor
type_description text s = record s { description = text }

-- The title of the dialog, and whether it has the field of the identifier.
unfoldable pub title : Option RoleRecord → String
title role = if is_some role then "Edit role" else "Create role"

unfoldable pub has_role_id : Option RoleRecord → Bool
has_role_id role = not (is_some role)

-- What `save` sends: an update of the role that is edited, or a new role.
unfoldable pub request : Option RoleRecord → RoleEditor → Request
request (some r) s = update_role r.id s.name (some s.description) s.selected
request none s = create_role (some_text (some s.role_id)) s.name (some s.description) s.selected

-- The button to save: disabled for a blank name, and while `save.isPending`.
unfoldable pub press_save : Option RoleRecord → Bool → RoleEditor → RoleEditor × List Effect
press_save role pending s =
    if clickable (is_blank (trim s.name)) pending && not (is_blank (trim s.name))
    then (s, mutate (request role s) ∷ [])
    else (s, [])

unfoldable pub saved : Option RoleRecord → RoleEditor → RoleEditor × List Effect
saved role s = (
  s,
  invalidate ("roles" ∷ [])
      ∷ toast success (if is_some role then "Role updated" else "Role created")
      ∷ on_close
      ∷ [],
)

unfoldable pub failed : String → RoleEditor → RoleEditor × List Effect
failed message s = (s, toast error message ∷ [])

unfoldable pub handle_close : Bool → RoleEditor → RoleEditor × List Effect
handle_close pending s = if pending then (s, []) else (s, on_close ∷ [])
