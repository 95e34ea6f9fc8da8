-- ===== src/Examples/Entry.antt =====
-- Forms, the editor of a role, and the command palette.
use kafkaesque.Palette.View.{hover}
use kafkaesque.Palette.Rows.{press_row, rows_shown}
use mathlib.Core.List.{Perm}
use kafkaesque.Prelude.Texts.{trim, is_blank}
use kafkaesque.Prelude.{
  All, keep, map, none, leb, some, ◌&&◌, ◌==◌, if◌then◌else◌, ◌⊎◌, [], false, true, ◌≡◌, not, ◌∷◌,
}
use kafkaesque.Ui.{sent}
use kafkaesque.Dialogs.CreateTopic
use kafkaesque.Dialogs.AddUser
use kafkaesque.Dialogs.RoleEditor
use kafkaesque.Dialogs.Forms
use kafkaesque.Prelude.Texts.{parse_int, pos}
use kafkaesque.Prelude.{◌≤◌, ℕ, some}
use kafkaesque.Dialogs.RoleSets
use kafkaesque.Palette.{
  enter, chosen, Palette, PaletteItem, static_items, flat_items, Command as PaletteCommand,
}
use kafkaesque.Palette.Rows.Laws as RowLaws
use kafkaesque.Api.Client.{create_topic}
use kafkaesque.Api.Types.{PermissionGroup}

abbrev topic_form : CreateTopic.CreateTopic
topic_form = record {
  name = "orders";
  partitions = "3";
  rf = "1";
  errors = CreateTopic.no_errors;
  success = "";
}

press-create_topic_example :
    let requests = sent (CreateTopic.press "c1" false topic_form).1 in
    (requests ≡ [])
    ⊎ ((n : ℕ) × (m : ℕ) × (requests
          ≡ create_topic "c1" (Forms.topic_body (trim "orders") n m) ∷ [])
        × (false ≡ false)
        × (is_blank "c1" ≡ false)
        × (CreateTopic.matches_name (trim "orders") ≡ true)
        × ((parse_int "3" ≡ some (pos n)) × (1 ≤ n))
        × ((parse_int "1" ≡ some (pos m)) × (1 ≤ m)))
press-create_topic_example = Forms.press-create_topic "c1" false topic_form

abbrev user_form : AddUser.AddUser
user_form = record { form = AddUser.empty; errors = AddUser.no_errors }

handle_submit-sent_example :
    let f = AddUser.empty in
    let fine =
      not (is_blank (trim f.email))
      && not (is_blank (trim f.display_name))
      && leb 6 (AddUser.text_length f.password)
      && f.password == f.confirm_password in
    (sent (AddUser.handle_submit false user_form).1 ≡ (if fine then AddUser.request f ∷ [] else []))
    × (AddUser.is_valid (AddUser.handle_submit false user_form).0.errors ≡ fine)
handle_submit-sent_example = Forms.handle_submit-sent user_form

abbrev editor : RoleEditor.RoleEditor
editor = record { name = "Ops"; description = ""; role_id = ""; selected = "topic.read" ∷ [] }

abbrev topics_group : PermissionGroup
topics_group = record {
  category = "topic";
  permissions =
      record { id = "topic.read"; category = "topic"; action = "read"; description = "" } ∷ [];
}

abbrev dashboard : PaletteItem
dashboard = record {
  id = "nav-dash";
  label = "Go to Dashboard";
  group = "Navigation";
  command = PaletteCommand.go "/";
}

abbrev idle : Palette
idle = record { query = ""; recent = []; selected = none }

abbrev third : Palette
third = record { query = ""; recent = []; selected = some 2 }

rows_shown-enter_example :
    let rows = RowLaws.all_rows (rows_shown static_items third) in
    Perm (map (λ r. r.entry) rows) static_items
    × (map (λ r. r.entry) (keep (λ r. r.lit) rows)
        ≡ RowLaws.at_most_one (chosen (flat_items static_items) third))
    × All
        (λ r.
          enter "c1" "" (flat_items static_items) (hover r.index third)
          ≡ press_row "c1" "" r (hover r.index third))
        rows
rows_shown-enter_example = RowLaws.rows_shown-enter "c1" "" static_items third

members-choose_example :
    RoleSets.members
      (RoleSets.choose (RoleSets.category topics_group ∷ RoleSets.one "acl.read" ∷ []) editor)
    ≡ RoleSets.choose_abstract
        (RoleSets.category topics_group ∷ RoleSets.one "acl.read" ∷ [])
        (RoleSets.members editor)
members-choose_example =
    RoleSets.members-choose (RoleSets.category topics_group ∷ RoleSets.one "acl.read" ∷ []) editor
