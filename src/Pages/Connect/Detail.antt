-- ===== src/Pages/Connect/Detail.antt =====
-- The drawer about a connector, `ConnectorDetail` (frontend/src/pages/ConnectPage.tsx).
use kafkaesque.Prelude.Decimal.{to_text}
use kafkaesque.Pages.Connect.{
  ConnectState, task_summary, connector_class_name, connector_type_label, state_of,
}
use kafkaesque.Prelude.Texts.{some_text, before}
use kafkaesque.Prelude.{
  get_elem?, length, is_empty, if◌then◌else◌, none, [], or_else, some, map, ◌∷◌, String, List,
  Option,
}
use kafkaesque.Api.Types.{ConnectorInfo}
use Prim.Native.String.{◌++◌ as ◌<>◌}

-- Label and text of the fields of a connector.
unfoldable pub connector_detail : ConnectorInfo → List (String × String)
connector_detail c =
    ("Name", c.name)
    ∷ ("State", state_of c)
    ∷ ("Type", connector_type_label c)
    ∷ ("Tasks", task_summary c)
    ∷ []

-- The class is shown where it has a name.
unfoldable pub class_shown : ConnectorInfo → Option String
class_shown c = some_text (some (connector_class_name c))

-- The rows of the tasks: number, state, worker.
unfoldable pub task_rows : ConnectorInfo → List (String × String × String)
task_rows c =
    map (λ t. (to_text t.id, t.state, or_else (some_text t.worker_id) "—")) (or_else c.tasks [])

unfoldable pub config_lines : ConnectorInfo → List String
config_lines c = map (λ (k, v). k <> ("=" <> v)) (or_else c.config [])

-- The host of the first task's worker.
unfoldable pub worker_host : ConnectorInfo → String
worker_host c = elim (get_elem? (or_else c.tasks []) 0) [
  | none ↦ "—"
  | some t ↦ elim t.worker_id [
    | none ↦ "—"
    | some w ↦ or_else (some_text (some (before ":" w))) "—"
  ]
]

-- The cells of a row: name, state, tasks, worker, type.
unfoldable pub connector_cells : ConnectorInfo → List String
connector_cells c =
    c.name
    ∷ state_of c
    ∷ (let tasks = or_else c.tasks [] in
        to_text (length tasks) <> (if is_empty tasks then "" else " (" <> (task_summary c <> ")")))
    ∷ worker_host c
    ∷ connector_type_label c
    ∷ []

-- The choices of the filter by state, value and text, and the two controls above the table.
unfoldable pub state_options : List (String × String)
state_options =
    ("", "All states")
    ∷ ("RUNNING", "Running")
    ∷ ("PAUSED", "Paused")
    ∷ ("FAILED", "Failed")
    ∷ ("UNASSIGNED", "Unassigned")
    ∷ ("UNKNOWN", "Unknown")
    ∷ []

unfoldable pub type_filter : String → ConnectState → ConnectState
type_filter text s = record s { filter = text }

unfoldable pub choose_state : String → ConnectState → ConnectState
choose_state state s = record s { state_filter = state }
