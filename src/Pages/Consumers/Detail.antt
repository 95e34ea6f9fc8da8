-- ===== src/Pages/Consumers/Detail.antt =====
-- What the page of consumer groups shows of one (frontend/src/pages/ConsumersPage.tsx).
use kafkaesque.Prelude.Texts.{some_text}
use kafkaesque.Prelude.Decimal.{to_text}
use kafkaesque.Pages.Consumers.{ConsumersState}
use kafkaesque.Api.Types.{ConsumerGroup}
use kafkaesque.Prelude.{[], or_else, ◌∷◌, List, Option, String, ℕ, none, some}

-- The cells of a row: ID, state, members, topics, total lag, maximal lag.
unfoldable pub group_cells : ConsumerGroup → List String
group_cells g =
    g.group_id
    ∷ g.state
    ∷ to_text g.members
    ∷ to_text g.topics
    ∷ to_text g.total_lag
    ∷ to_text g.max_lag
    ∷ []

unfoldable pub drawer_title : ConsumersState → String
drawer_title s =
    let id : Option String = elim s.selected [ none ↦ none | some g ↦ some g.group_id ] in
    or_else (some_text id) "Consumer Group"

-- Label and text of the fields of the drawer; `locale_number` is `toLocaleString`.
unfoldable pub group_detail : (ℕ → String) → ConsumerGroup → List (String × String)
group_detail locale_number g =
    ("State", g.state)
    ∷ ("Members", to_text g.members)
    ∷ ("Total lag", locale_number g.total_lag)
    ∷ ("Max lag", locale_number g.max_lag)
    ∷ []

unfoldable pub type_filter : String → ConsumersState → ConsumersState
type_filter text s = record s { filter = text }
