-- ===== src/Pages/Schemas.antt =====
-- `SchemasContent` (frontend/src/pages/SchemasPage.tsx).
use kafkaesque.Prelude.Texts.{some_text, to_lower, has_text, trim, is_blank}
use kafkaesque.Ui.Table.{clickable, table_body, Body}
use kafkaesque.Api.Types.{User}
use kafkaesque.Prelude.{
  false, [], is_some, ◌||◌, or_else, ◌&&◌, ◌∷◌, if◌then◌else◌, not, some, Bool, List, Option,
  String, none,
}
use kafkaesque.Api.Client.{register_schema}
use kafkaesque.Ui.{mutate, refetch, toast, Effect, success, error}
use kafkaesque.Auth.Guards.{permission_guard, any_of, children, fallback}

pub record SchemasState : Type 0 where
  pub filter : String
  pub selected : Option String
  pub schema_text : String
  pub new_subject : String

abbrev pub start : SchemasState
start = record { filter = ""; selected = none; schema_text = ""; new_subject = "" }

-- `register`, up to its call.
unfoldable pub register : String → SchemasState → SchemasState × List Effect
register cluster s =
    if is_blank (trim s.new_subject) || is_blank (trim s.schema_text)
    then (s, [])
    else (s, mutate (register_schema cluster (trim s.new_subject) s.schema_text (some "AVRO")) ∷ [])

-- Its button: in a guard, and disabled for a blank field.
unfoldable pub press_register : Option User → String → SchemasState → SchemasState × List Effect
press_register me cluster s = elim (permission_guard me "schema.write" none any_of) [
  | children ↦
      if clickable (is_blank (trim s.new_subject) || is_blank (trim s.schema_text)) false
      then register cluster s
      else (s, [])
  | fallback ↦ (s, [])
]

unfoldable pub registered : SchemasState → SchemasState × List Effect
registered s = (
  record s { new_subject = ""; schema_text = "" },
  toast success "Schema registered" ∷ refetch ∷ [],
)

-- What was thrown may be no `Error`.
unfoldable pub register_failed : Option String → SchemasState → SchemasState × List Effect
register_failed message s = (s, toast error (or_else message "Failed to register schema") ∷ [])

unfoldable pub select : String → SchemasState → SchemasState
select subject s = record s { selected = some subject }

unfoldable pub close_drawer : SchemasState → SchemasState
close_drawer s = record s { selected = none }

-- Whether the query of a schema is enabled.
unfoldable pub detail_enabled : String → SchemasState → Bool
detail_enabled cluster s = not (is_blank cluster) && is_some (some_text s.selected)

unfoldable pub table : Bool → Option String → List String → SchemasState → Body String
table loading failure subjects s =
    table_body loading failure "No schemas"
      (some "Configure schema_registry_url on the cluster or register a schema.") (some s.filter)
      (some (λ t f. has_text (to_lower t) (to_lower f))) subjects
