-- ===== src/Pages/Connect.antt =====
-- `ConnectContent` (frontend/src/pages/ConnectPage.tsx).
pub mod Laws
pub mod Detail
use kafkaesque.Prelude.Texts.{to_lower, to_upper, after_last, has_text, is_blank, some_text}
use kafkaesque.Ui.{invalidate, error, mutate, success, toast, Effect}
use kafkaesque.Ui.Table.{action, RowAction, clickable, table_body, Body}
use kafkaesque.Api.Types.{ConnectorTask, User, ConnectorInfo}
use kafkaesque.Prelude.{
  true, false, is_empty, length, ◌||◌, [], some, ℕ, ◌==◌, if◌then◌else◌, keep, or_else, ◌∷◌, Bool,
  List, Option, String, none,
}
use Prim.Native.String.{◌++◌ as ◌<>◌}
use kafkaesque.Api.Client.{delete_connector, restart_connector, create_connector}
use kafkaesque.Prelude.Decimal.{to_text}
use kafkaesque.Auth.Guards.{permission_guard, any_of, children, fallback}

-- `DEMO_CONNECTOR`
abbrev pub demo_name : String
demo_name = "demo-heartbeat"

unfoldable pub demo_config : List (String × String)
demo_config =
    ("connector.class", "org.apache.kafka.connect.mirror.MirrorHeartbeatConnector")
    ∷ ("tasks.max", "1")
    ∷ ("source.cluster.alias", "source")
    ∷ ("target.cluster.alias", "target")
    ∷ ("source.cluster.bootstrap.servers", "kafka:9092")
    ∷ ("target.cluster.bootstrap.servers", "kafka:9092")
    ∷ ("replication.factor", "1")
    ∷ ("emit.heartbeats.interval.seconds", "30")
    ∷ []

unfoldable pub running : List ConnectorTask → ℕ
running tasks = length (keep (λ t. t.state == "RUNNING") tasks)

unfoldable pub task_summary : ConnectorInfo → String
task_summary c =
    let tasks = or_else c.tasks [] in
    if is_empty tasks
    then "—"
    else to_text (running tasks) <> ("/" <> (to_text (length tasks) <> " running"))

-- `config?.[key]`
unfoldable pub config_at : String → List (String × String) → Option String
config_at key [] = none
config_at key ((k, v) ∷ r) = let rest = config_at key r in if k == key then some v else rest

unfoldable pub connector_class_name : ConnectorInfo → String
connector_class_name c =
    or_else (some_text (config_at "connector.class" (or_else c.config []))) (or_else c.kind "")

-- `cls.split('.').pop() || cls`
unfoldable pub connector_type_label : ConnectorInfo → String
connector_type_label c =
    let cls = connector_class_name c in
    if is_blank cls then "—" else or_else (some_text (some (after_last "." cls))) cls

-- `c.state || 'UNKNOWN'`
unfoldable pub state_of : ConnectorInfo → String
state_of c = if is_blank c.state then "UNKNOWN" else c.state

pub record ConnectState : Type 0 where
  pub filter : String
  pub state_filter : String
  pub view_connector : Option ConnectorInfo
  pub delete_target : Option ConnectorInfo

abbrev pub start : ConnectState
start = record { filter = ""; state_filter = ""; view_connector = none; delete_target = none }

-- `filtered`
unfoldable pub by_state : List ConnectorInfo → ConnectState → List ConnectorInfo
by_state cs s = keep (λ c. is_blank s.state_filter || to_upper (state_of c) == s.state_filter) cs

unfoldable pub table : Bool → Option String → List ConnectorInfo → ConnectState → Body ConnectorInfo
table loading failure cs s =
    table_body loading failure "No connectors"
      (some
        "Click \"Add demo connector\" to register a test connector, or ensure connect_url is set on the cluster.")
      (some s.filter) (some (λ c f. has_text (to_lower c.name) (to_lower f))) (by_state cs s)

pub data RowCommand : Type 0 where
  view ask_delete : ConnectorInfo → RowCommand
  restart : String → RowCommand

-- The menu of a row is in a `PermissionGuard`, as are the buttons of the drawer.
unfoldable pub connector_actions : Option User → ConnectorInfo → List (RowAction RowCommand)
connector_actions me c = elim (permission_guard me "connect.manage" none any_of) [
  | children ↦
      action "View details" (view c)
      ∷ action "Restart" (restart c.name)
      ∷ record (action "Delete" (ask_delete c)) { destructive = true }
      ∷ []
  | fallback ↦ []
]

unfoldable pub run : String → RowCommand → ConnectState → ConnectState × List Effect
run cluster (view c) s = (record s { view_connector = some c }, [])
run cluster (ask_delete c) s = (record s { delete_target = some c }, [])
run cluster (restart name) s = (s, mutate (restart_connector cluster name) ∷ [])

-- The button above the table, which its guard may hide.
unfoldable pub press_demo : Option User → String → Bool → ConnectState → ConnectState × List Effect
press_demo me cluster pending s = elim (permission_guard me "connect.manage" none any_of) [
  | children ↦
      if clickable false pending
      then (s, mutate (create_connector cluster demo_name demo_config) ∷ [])
      else (s, [])
  | fallback ↦ (s, [])
]

-- The two buttons of the drawer.
unfoldable pub press_restart :
    Option User → String → Bool → ConnectState → ConnectState × List Effect
press_restart me cluster pending s = elim s.view_connector [
  | none ↦ (s, [])
  | some c ↦ elim (permission_guard me "connect.manage" none any_of) [
    | children ↦
        if clickable false pending
        then (s, mutate (restart_connector cluster c.name) ∷ [])
        else (s, [])
    | fallback ↦ (s, [])
  ]
]

unfoldable pub press_delete : Option User → ConnectState → ConnectState × List Effect
press_delete me s = elim s.view_connector [
  | none ↦ (s, [])
  | some c ↦ elim (permission_guard me "connect.manage" none any_of) [
    | children ↦ (record s { delete_target = some c }, [])
    | fallback ↦ (s, [])
  ]
]

unfoldable pub close_drawer : ConnectState → ConnectState × List Effect
close_drawer s = (record s { view_connector = none }, [])

unfoldable pub confirm_delete : String → Bool → ConnectState → ConnectState × List Effect
confirm_delete cluster pending s = elim s.delete_target [
  | none ↦ (s, [])
  | some c ↦
      if clickable false pending
      then (s, mutate (delete_connector cluster c.name) ∷ [])
      else (s, [])
]

unfoldable pub cancel_delete : ConnectState → ConnectState × List Effect
cancel_delete s = (record s { delete_target = none }, [])

unfoldable pub restarted : String → ConnectState → ConnectState × List Effect
restarted cluster s =
    (s, toast success "Connector restarted" ∷ invalidate ("connectors" ∷ cluster ∷ []) ∷ [])

unfoldable pub deleted : String → ConnectState → ConnectState × List Effect
deleted cluster s = (
  record s { delete_target = none },
  toast success "Connector deleted" ∷ invalidate ("connectors" ∷ cluster ∷ []) ∷ [],
)

unfoldable pub seeded : String → ConnectState → ConnectState × List Effect
seeded cluster s =
    (s, toast success "Demo connector created" ∷ invalidate ("connectors" ∷ cluster ∷ []) ∷ [])

unfoldable pub failed : String → ConnectState → ConnectState × List Effect
failed message s = (s, toast error message ∷ [])
