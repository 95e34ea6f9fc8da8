-- ===== src/Ui/Viewers.antt =====
-- What shows one value: `MessageDrawer` (frontend/src/components/drawers/MessageDrawer.tsx), `CodeEditor`
-- (components/ui/CodeEditor.tsx), `UserDetailsDrawer` (components/rbac/UserDetails.tsx) and the bars of
-- `ClusterMetricsChart` (components/dashboard/ClusterMetricsChart.tsx). The argument `pretty` is
-- `JSON.stringify(JSON.parse(…), null, 2)`, `none` where `JSON.parse` throws.
use kafkaesque.Layout.Badges.{role_label, status_label}
use kafkaesque.Prelude.Texts.{some_text}
use kafkaesque.Dialogs.EditUser.{UserRow}
use Prim.Native.Char.{code}
use Prim.Native.String.{[], ◌∷◌}
use kafkaesque.Prelude.{true, suc, eqb, List, if◌then◌else◌, max, or_else, Option, String, ℕ, some}

pub data Tab : Type 0 where
  formatted_tab raw_tab : Tab

abbrev pub start : Tab
start = formatted_tab

abbrev value_of : Option String → String
value_of v = or_else v ""

module _ (pretty : String → Option String) where
  -- The text of a message's value.
  unfoldable pub shown_value : Tab → Option String → String
  shown_value formatted_tab v = or_else (pretty (value_of v)) (value_of v)
  shown_value raw_tab v = value_of v

  -- The editor's button to format: what it passes to `onChange`, if anything.
  unfoldable pub format : String → Option String
  format value = pretty value

unfoldable pub clear : String
clear = ""

-- `value.split('\n').length`
line_count : String → ℕ
line_count [] = 1
line_count (c ∷ s) = let rest = line_count s in if eqb (code c) 10 then suc rest else rest

-- How many lines have a number: at least `rows`.
unfoldable pub numbered_lines : ℕ → String → ℕ
unfolding line_count
numbered_lines rows value = max (line_count value) rows

-- The fields of the drawer about a user: label and text.
unfoldable pub user_details : UserRow → List (String × String)
user_details u =
    List.◌∷◌ ("Display name", or_else (some_text (some u.display_name)) "—")
      (List.◌∷◌ ("Email", u.email)
        (List.◌∷◌ ("Status", status_label (or_else u.is_active true))
          (List.◌∷◌ ("Last login", or_else u.last_login "—")
            (List.◌∷◌ ("Assigned role", role_label u.role) List.[]))))

-- The bars of the cluster's inventory: brokers, topics, partitions, groups.
unfoldable pub inventory_bars : ℕ → ℕ → ℕ → ℕ → List (String × ℕ)
inventory_bars brokers topics partitions groups =
    List.◌∷◌ ("Brokers", brokers)
      (List.◌∷◌ ("Topics", topics)
        (List.◌∷◌ ("Partitions", partitions) (List.◌∷◌ ("Groups", groups) List.[])))
