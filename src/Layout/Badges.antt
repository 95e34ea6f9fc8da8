-- ===== src/Layout/Badges.antt =====
-- The badges and the avatar of a user (frontend/src/components/rbac/Badges.tsx).
use kafkaesque.Prelude.Texts.{some_text, to_upper}
use kafkaesque.Prelude.{[], or_else, ◌==◌, if◌then◌else◌, ◌∷◌, Bool, Option, String}
use Prim.Native.String.{[], ◌∷◌}

-- `roleLabels[r] ?? role`
unfoldable pub role_label : String → String
role_label role =
    let r = to_upper role in
    if r == "ADMIN"
    then "Administrator"
    else if r == "OPERATOR"
    then "Operator"
    else if r == "DEVELOPER"
    then "Developer"
    else if r == "VIEWER"
    then "Viewer"
    else role

unfoldable pub status_label : Bool → String
status_label active = if active then "Active" else "Disabled"

first_letter : String → String
first_letter [] = []
first_letter (c ∷ s) = c ∷ []

-- `(name || email || '?').charAt(0).toUpperCase()`
unfoldable pub initial : Option String → Option String → String
unfolding first_letter
initial name email =
    to_upper (first_letter (or_else (some_text name) (or_else (some_text email) "?")))
