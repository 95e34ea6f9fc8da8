-- ===== src/Pages/Alerts/Detail.antt =====
-- What the page of alerts shows (frontend/src/pages/AlertsPage.tsx).
use kafkaesque.Prelude.Decimal.{to_text}
use kafkaesque.Ui.Table.{table_body, Body}
use kafkaesque.Api.Types.{AlertEvent, ConsumerGroup, AlertRule}
use kafkaesque.Pages.Alerts.{active_count, lowest_threshold, max_lag_of, AlertsState}
use kafkaesque.Prelude.{ltb, ◌++◌, [], eqb, if◌then◌else◌, ◌∷◌, Bool, List, String, ℕ, none, some}

-- The parts of the line above the rules: the largest lag, the lowest threshold, whether the page is
-- live, how many events are active.
pub data Note : Type 0 where
  max_lag_note : ℕ → Note
  lowest_note : ℕ → Note
  live_note : Note
  active_note : ℕ → Note

unfoldable pub summary :
    List ConsumerGroup → List AlertRule → List AlertEvent → AlertsState → List Note
summary gs rs es s =
    max_lag_note (max_lag_of gs)
      ∷ elim (lowest_threshold rs) [ none ↦ [] | some n ↦ lowest_note n ∷ [] ]
    ++ (if s.live then live_note ∷ [] else [])
    ++ (if ltb 0 (active_count es) then active_note (active_count es) ∷ [] else [])

-- The hint for tests is shown while the largest lag is 0.
unfoldable pub hint_shown : List ConsumerGroup → Bool
hint_shown gs = eqb (max_lag_of gs) 0

unfoldable pub live_label : AlertsState → String
live_label s = if s.live then "Live on" else "Live off"

unfoldable pub rule_types : List (String × String)
rule_types =
    ("consumer_lag", "Consumer lag (max)") ∷ ("offline_partitions", "Offline partitions") ∷ []

unfoldable pub type_name : String → AlertsState → AlertsState
type_name text s = record s { name = text }

unfoldable pub choose_type : String → AlertsState → AlertsState
choose_type t s = record s { rule_type = t }

unfoldable pub type_threshold : String → AlertsState → AlertsState
type_threshold text s = record s { threshold = text }

unfoldable pub rule_cells : AlertRule → List String
rule_cells r = r.name ∷ r.rule_type ∷ to_text r.threshold ∷ []

unfoldable pub event_cells : (String → String) → AlertEvent → List String
event_cells locale_time e = e.severity ∷ e.message ∷ e.status ∷ locale_time e.created_at ∷ []

unfoldable pub rules_table : Bool → List AlertRule → Body AlertRule
rules_table loading rs = table_body loading none "No alert rules" none none none rs

unfoldable pub events_table : Bool → List AlertEvent → AlertsState → Body AlertEvent
events_table loading es s =
    table_body loading none "No alert events"
      (some (
        if s.live
        then "Live monitoring will show events when thresholds are exceeded."
        else "Turn on Live or click Run check now."))
      none none es
