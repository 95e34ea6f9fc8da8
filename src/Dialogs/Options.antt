-- ===== src/Dialogs/Options.antt =====
-- The choices of the dialogs' lists, value and text: the role in frontend/src/components/dialogs/AddUserDialog.tsx
-- and EditUserDialog.tsx, the topic and the partition in ProduceMessageDialog.tsx.
use kafkaesque.Api.Types.{RoleRecord}
use kafkaesque.Layout.Badges.{role_label}
use kafkaesque.Prelude.Decimal.{to_text}
use kafkaesque.Prelude.{[], ◌∷◌, ◌≡◌, map, if◌then◌else◌, is_empty, refl, Bool, List, String, ℕ}

-- The choices by the roles that were loaded, or the others if there are none.
abbrev of_roles : List (String × String) → List RoleRecord → List (String × String)
of_roles others roles = if is_empty roles then others else map (λ r. (r.id, r.name)) roles

unfoldable pub new_roles : List RoleRecord → List (String × String)
new_roles roles =
    of_roles
      (("DEVELOPER", "Developer")
        ∷ ("VIEWER", "Viewer")
        ∷ ("OPERATOR", "Operator")
        ∷ ("ADMIN", "Administrator")
        ∷ [])
      roles

unfoldable pub edited_roles : List RoleRecord → List (String × String)
edited_roles roles =
    of_roles
      (("ADMIN", "Administrator")
        ∷ ("OPERATOR", "Operator")
        ∷ ("DEVELOPER", "Developer")
        ∷ ("VIEWER", "Viewer")
        ∷ [])
      roles

-- Each choice that stands in for the loaded roles is called as the badge of the role is.
labels-edited_roles : map (λ r. role_label r.0) (edited_roles []) ≡ map (λ r. r.1) (edited_roles [])
unfolding edited_roles role_label kafkaesque.Prelude.Texts.to_upper
labels-edited_roles = refl

unfoldable pub topic_options : List String → List (String × String)
topic_options names = ("", "Select topic…") ∷ map (λ n. (n, n)) names

unfoldable pub partition_options : List (String × String)
partition_options =
    ("auto", "Auto") ∷ map (λ p. (to_text p, to_text p)) (0 ∷ 1 ∷ 2 ∷ 3 ∷ 4 ∷ 5 ∷ [])
