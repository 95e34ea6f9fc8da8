-- ===== src/Pages/Consumers.antt =====
-- `ConsumersContent` (frontend/src/pages/ConsumersPage.tsx).
pub mod Detail
use kafkaesque.Ui.Table.{table_body, Body}
use kafkaesque.Prelude.Texts.{is_blank, to_lower, has_text, some_text}
use kafkaesque.Api.Types.{ConsumerGroup}
use kafkaesque.Prelude.{if◌then◌else◌, List, ltb, some, Bool, Option, String, none}

pub record ConsumersState : Type 0 where
  pub filter : String
  pub selected : Option ConsumerGroup

abbrev pub start : ConsumersState
start = record { filter = ""; selected = none }

unfoldable pub select : ConsumerGroup → ConsumersState → ConsumersState
select g s = record s { selected = some g }

unfoldable pub close_drawer : ConsumersState → ConsumersState
close_drawer s = record s { selected = none }

-- `selected?.group_id || highlightGroup || undefined`
unfoldable pub selected_key : Option String → ConsumersState → Option String
selected_key highlighted s = elim s.selected [
  | none ↦ some_text highlighted
  | some g ↦ if is_blank g.group_id then some_text highlighted else some g.group_id
]

-- The warning in the drawer.
unfoldable pub has_high_lag : ConsumerGroup → Bool
has_high_lag g = ltb 1000 g.total_lag

unfoldable pub matches : ConsumerGroup → String → Bool
matches g f = has_text (to_lower g.group_id) (to_lower f)

unfoldable pub table :
    Bool → Option String → List ConsumerGroup → ConsumersState → Body ConsumerGroup
table loading failure gs s =
    table_body loading failure "No consumer groups" none (some s.filter) (some matches) gs
