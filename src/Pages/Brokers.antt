-- ===== src/Pages/Brokers.antt =====
-- `BrokersContent` (frontend/src/pages/BrokersPage.tsx).
pub mod Detail
use kafkaesque.Prelude.Texts.{to_lower, has_text, some_text}
use kafkaesque.Ui.{invalidate, navigate, Effect}
use kafkaesque.Ui.Table.{action, clickable, table_body, Body, RowAction}
use kafkaesque.Prelude.{
  false, ◌∷◌, [], leb, some, ◌||◌, if◌then◌else◌, ℕ, Bool, List, Option, String, none,
}
use kafkaesque.Api.Types.{Broker}
use Prim.Native.String.{◌++◌ as ◌<>◌}
use kafkaesque.Prelude.Decimal.{to_text}

unfoldable pub broker_status : Broker → String
broker_status b = if leb 0 b.partition_count then "ONLINE" else "UNKNOWN"

pub record BrokersState : Type 0 where
  pub filter : String
  pub selected : Option Broker

abbrev pub start : BrokersState
start = record { filter = ""; selected = none }

pub data RowCommand : Type 0 where
  view : Broker → RowCommand
  show_partitions : ℕ → RowCommand
  refresh : RowCommand

unfoldable pub broker_actions : Broker → List (RowAction RowCommand)
broker_actions b =
    action "View details" (view b)
    ∷ action "View partitions" (show_partitions b.id)
    ∷ action "Refresh" refresh
    ∷ []

unfoldable pub run : String → RowCommand → BrokersState → BrokersState × List Effect
run cluster (view b) s = (record s { selected = some b }, [])
run cluster (show_partitions id) s = (s, navigate ("/topics?broker=" <> to_text id) ∷ [])
run cluster refresh s = (s, invalidate ("brokers" ∷ cluster ∷ []) ∷ [])

-- The button above the table, while neither the query nor the mutation is under way.
unfoldable pub press_refresh : String → Bool → Bool → BrokersState → BrokersState × List Effect
press_refresh cluster fetching pending s =
    if clickable false (fetching || pending)
    then (s, invalidate ("brokers" ∷ cluster ∷ []) ∷ [])
    else (s, [])

unfoldable pub close_drawer : BrokersState → BrokersState × List Effect
close_drawer s = (record s { selected = none }, [])

unfoldable pub matches : Broker → String → Bool
matches b f = has_text (to_text b.id) f || has_text (to_lower b.host) (to_lower f)

-- The key of the row that is marked: the selected broker's, or that of the link.
unfoldable pub selected_key : Option String → BrokersState → Option String
selected_key highlighted s = elim s.selected [
  | none ↦ some_text highlighted
  | some b ↦ some (to_text b.id)
]

unfoldable pub table : Bool → Option String → List Broker → BrokersState → Body Broker
table loading failure bs s =
    table_body loading failure "No brokers found" none (some s.filter) (some matches) bs
