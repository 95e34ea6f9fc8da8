-- ===== src/Pages/Topics/Detail.antt =====
-- The drawer about a topic, `TopicDetail` and the buttons below it (frontend/src/pages/TopicsPage.tsx).
use kafkaesque.Auth.Guards.{any_of, permission_guard, children, fallback}
use kafkaesque.Prelude.Texts.{some_text}
use kafkaesque.Prelude.Decimal.{to_text}
use kafkaesque.Ui.{open_produce_message, dialog, navigate, Effect}
use kafkaesque.Api.Types.{PartitionInfo, User, Topic}
use kafkaesque.Pages.Topics.{
  messages_link, under_rep, leaders, is_internal_topic, min_isr, TopicsState,
}
use kafkaesque.Prelude.{
  [], map, or_else, if◌then◌else◌, none, some, ◌∷◌, Bool, List, Option, String, ℕ,
}
use Prim.Native.String.{◌++◌ as ◌<>◌}

-- `ns.join(', ')`
unfoldable pub join_numbers : List ℕ → String
join_numbers [] = ""
join_numbers (n ∷ []) = to_text n
join_numbers (n ∷ m ∷ ns) = to_text n <> (", " <> join_numbers (m ∷ ns))

abbrev shown_unless : Bool → String → String
shown_unless loading text = if loading then "…" else text

-- Label and text of the fields of a topic.
unfoldable pub topic_detail : Option (List PartitionInfo) → Bool → Topic → List (String × String)
topic_detail partitions loading t =
    let isr : String = elim (min_isr partitions) [ none ↦ "—" | some n ↦ to_text n ] in
    let led : String = elim partitions [ none ↦ "—" | some ps ↦ join_numbers (leaders ps) ] in
    ("Topic name", t.name)
    ∷ ("Partitions", to_text t.partitions)
    ∷ ("Replication factor", to_text t.replication_factor)
    ∷ ("Type", if is_internal_topic t then "Internal" else "User")
    ∷ ("Min ISR size", shown_unless loading isr)
    ∷ ("Leaders", shown_unless loading led)
    ∷ ("Under-replicated", shown_unless loading (to_text (under_rep partitions)))
    ∷ []

-- The rows of the table of partitions: number, leader, replicas in sync, messages. `locale_number` is
-- `toLocaleString`.
unfoldable pub partition_rows :
    (ℕ → String) → Option (List PartitionInfo) → List (String × String × String × String)
partition_rows locale_number partitions =
    map
      (λ p.
        (to_text p.partition, to_text p.leader, join_numbers p.isr, locale_number p.message_count))
      (or_else partitions [])

unfoldable pub drawer_title : TopicsState → String
drawer_title s =
    let name : Option String = elim s.view_topic [ none ↦ none | some t ↦ some t.name ] in
    or_else (some_text name) "Topic"

unfoldable pub press_browse : TopicsState → TopicsState × List Effect
press_browse s = elim s.view_topic [
  | none ↦ (s, [])
  | some t ↦ (s, navigate (messages_link t.name) ∷ [])
]

unfoldable pub press_produce : Option User → TopicsState → TopicsState × List Effect
press_produce me s = elim s.view_topic [
  | none ↦ (s, [])
  | some t ↦ elim (permission_guard me "message.publish" none any_of) [
    | children ↦ (s, dialog (open_produce_message (some t.name)) ∷ [])
    | fallback ↦ (s, [])
  ]
]

unfoldable pub close_drawer : TopicsState → TopicsState
close_drawer s = record s { view_topic = none }

-- The column of the type, and the two controls above the table.
unfoldable pub type_cell : Topic → String
type_cell t = if is_internal_topic t then "Internal" else "User"

unfoldable pub type_filter : String → TopicsState → TopicsState
type_filter text s = record s { filter = text }

unfoldable pub set_hide_internal : Bool → TopicsState → TopicsState
set_hide_internal b s = record s { hide_internal = b }

unfoldable pub select : Topic → TopicsState → TopicsState
select t s = record s { view_topic = some t }

-- The name of a row: whether the badge of internal topics stands before it, its text and its link.
unfoldable pub name_cell : Topic → Bool × String × String
name_cell t = (is_internal_topic t, t.name, messages_link t.name)

-- The two cells after it.
unfoldable pub count_cells : Topic → List String
count_cells t = to_text t.partitions ∷ to_text t.replication_factor ∷ []
