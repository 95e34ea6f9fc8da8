-- ===== src/Pages/Clusters.antt =====
-- `ClustersPage` (frontend/src/pages/ClustersPage.tsx). What `toLocaleString` makes of a time is the
-- argument `locale_time`, `none` for a text that is no time.
pub mod Laws
pub mod Detail
use kafkaesque.Prelude.Texts.{is_blank, some_text}
use kafkaesque.Ui.Table.{action, clickable, RowAction, table_body, Body}
use kafkaesque.Api.Types.{User, Cluster, TestConnectionResult}
use kafkaesque.Prelude.{
  true, ◌∷◌, [], if◌then◌else◌, ◌==◌, false, is_some, or_else, some, Bool, List, Option, String,
  none,
}
use Prim.Native.String.{◌++◌ as ◌<>◌}
use kafkaesque.Api.Client.{delete_cluster, test_cluster}
use kafkaesque.Auth.Guards.{permission_guard, any_of, children, fallback}
use kafkaesque.Ui.{mutate, open_add_cluster, dialog, invalidate, toast, Effect, success, error}
use kafkaesque.Prelude.Decimal.{to_text}

module _ (locale_time : String → Option String) where
  unfoldable pub format_when : Option String → String
  format_when none = "—"
  format_when (some iso) = if is_blank iso then "—" else or_else (locale_time iso) "—"

-- `value || '—'`
unfoldable pub or_dash : Option String → String
or_dash v = or_else (some_text v) "—"

-- The column of integrations.
unfoldable pub integrations : Cluster → String
integrations c =
    let registry = is_some (some_text c.schema_registry_url) in
    if is_some (some_text c.connect_url)
    then if registry then "Schema Registry, Connect" else "Connect"
    else if registry
    then "Schema Registry"
    else "—"

pub record ClustersState : Type 0 where
  pub delete_target : Option Cluster
  pub view_target : Option Cluster
  pub edit_mode : Bool

abbrev pub start : ClustersState
start = record { delete_target = none; view_target = none; edit_mode = false }

pub data RowCommand : Type 0 where
  view edit ask_delete : Cluster → RowCommand
  test : String → RowCommand

-- `clusterActions`, in the guard of the column.
unfoldable pub cluster_actions : Option User → Cluster → List (RowAction RowCommand)
cluster_actions me c = elim (permission_guard me "cluster.read" none any_of) [
  | children ↦
      action "View" (view c)
      ∷ action "Edit" (edit c)
      ∷ action "Test connection" (test c.id)
      ∷ record (action "Delete" (ask_delete c)) { destructive = true }
      ∷ []
  | fallback ↦ []
]

unfoldable pub run : RowCommand → ClustersState → ClustersState × List Effect
run (view c) s = (record s { edit_mode = false; view_target = some c }, [])
run (edit c) s = (record s { edit_mode = true; view_target = some c }, [])
run (ask_delete c) s = (record s { delete_target = some c }, [])
run (test id) s = (s, mutate (test_cluster id) ∷ [])

-- The button above the table.
unfoldable pub press_add : Option User → ClustersState → ClustersState × List Effect
press_add me s = elim (permission_guard me "cluster.manage" none any_of) [
  | children ↦ (s, dialog open_add_cluster ∷ [])
  | fallback ↦ (s, [])
]

-- The two buttons of the drawer; `pending` is `test.isPending`.
unfoldable pub press_test : Option User → Bool → ClustersState → ClustersState × List Effect
press_test me pending s = elim s.view_target [
  | none ↦ (s, [])
  | some c ↦ elim (permission_guard me "cluster.read" none any_of) [
    | children ↦ if clickable false pending then (s, mutate (test_cluster c.id) ∷ []) else (s, [])
    | fallback ↦ (s, [])
  ]
]

unfoldable pub press_remove : Option User → ClustersState → ClustersState × List Effect
press_remove me s = elim s.view_target [
  | none ↦ (s, [])
  | some c ↦ elim (permission_guard me "cluster.manage" none any_of) [
    | children ↦ (record s { delete_target = some c }, [])
    | fallback ↦ (s, [])
  ]
]

unfoldable pub close_drawer : ClustersState → ClustersState × List Effect
close_drawer s = (record s { view_target = none }, [])

unfoldable pub drawer_title : ClustersState → String
drawer_title s =
    let name : Option String = elim s.view_target [ none ↦ none | some c ↦ some c.name ] in
    if s.edit_mode
    then "Edit — " <> or_else name "undefined"
    else or_else (some_text name) "Cluster"

unfoldable pub confirm_delete : Bool → ClustersState → ClustersState × List Effect
confirm_delete pending s = elim s.delete_target [
  | none ↦ (s, [])
  | some c ↦ if clickable false pending then (s, mutate (delete_cluster c.id) ∷ []) else (s, [])
]

unfoldable pub cancel_delete : ClustersState → ClustersState × List Effect
cancel_delete s = (record s { delete_target = none }, [])

unfoldable pub deleted : ClustersState → ClustersState × List Effect
deleted s = (
  record s { delete_target = none },
  invalidate ("clusters" ∷ []) ∷ toast success "Cluster removed from Kafkaesque" ∷ [],
)

-- `viewTarget?.id === id`
unfoldable pub is_viewed : String → ClustersState → Bool
is_viewed id s = elim s.view_target [ none ↦ false | some c ↦ c.id == id ]

unfoldable pub tested : TestConnectionResult → String → ClustersState → ClustersState × List Effect
tested r id s =
    let verdict =
      if r.connected
      then toast success ("Connected — " <> (to_text (or_else r.broker_count 0) <> " brokers"))
      else toast error (or_else (some_text r.error) "Connection failed") in
    (
      s,
      invalidate ("clusters" ∷ [])
          ∷ (if is_viewed id s
              then invalidate ("cluster" ∷ id ∷ []) ∷ verdict ∷ []
              else verdict ∷ []),
    )

unfoldable pub failed : String → ClustersState → ClustersState × List Effect
failed message s = (s, toast error message ∷ [])

unfoldable pub table : Bool → Option String → List Cluster → Body Cluster
table loading failure cs =
    table_body loading failure "No clusters configured" (some "Add a cluster to get started.") none
      none cs
