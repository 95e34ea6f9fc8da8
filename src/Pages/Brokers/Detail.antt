-- ===== src/Pages/Brokers/Detail.antt =====
-- What the page of brokers shows of one (frontend/src/pages/BrokersPage.tsx).
use kafkaesque.Prelude.Texts.{some_text}
use kafkaesque.Prelude.Decimal.{to_text}
use kafkaesque.Pages.Brokers.{broker_status, BrokersState}
use kafkaesque.Api.Types.{Broker}
use Prim.Native.String.{◌++◌ as ◌<>◌}
use kafkaesque.Prelude.{[], if◌then◌else◌, ◌∷◌, List, or_else, String, none, some}

abbrev address : Broker → String
address b = b.host <> (":" <> to_text b.port)

abbrev rack_text : Broker → String
rack_text b = or_else (some_text b.rack) "—"

-- The cells of a row: ID, host, rack, role, controller, leader partitions, status.
unfoldable pub broker_cells : Broker → List String
broker_cells b =
    to_text b.id
    ∷ address b
    ∷ rack_text b
    ∷ (if b.is_controller then "Controller" else "Broker")
    ∷ (if b.is_controller then "Yes" else "No")
    ∷ to_text b.partition_count
    ∷ broker_status b
    ∷ []

unfoldable pub drawer_title : BrokersState → String
drawer_title s = elim s.selected [ none ↦ "Broker undefined" | some b ↦ "Broker " <> to_text b.id ]

-- Label and text of the fields of the drawer.
unfoldable pub broker_detail : Broker → List (String × String)
broker_detail b =
    ("Broker ID", to_text b.id)
    ∷ ("Status", broker_status b)
    ∷ ("Role", if b.is_controller then "Controller" else "Broker")
    ∷ ("Leader partitions", to_text b.partition_count)
    ∷ ("Host", address b)
    ∷ ("Rack", rack_text b)
    ∷ []

unfoldable pub type_filter : String → BrokersState → BrokersState
type_filter text s = record s { filter = text }

unfoldable pub select : Broker → BrokersState → BrokersState
select b s = record s { selected = some b }
