-- ===== src/Pages/Topics.antt =====
-- `TopicsContent` (frontend/src/pages/TopicsPage.tsx).
pub mod Laws
pub mod Detail
use kafkaesque.Api.Client.{delete_topic}
use kafkaesque.Prelude.Texts.{to_lower, has_text, is_blank}
use kafkaesque.Auth.Guards.{any_of, permission_guard, Shown}
use text.Mathlib.Text.{starts_with}
use kafkaesque.Ui.{
  mutate, open_produce_message, dialog, error, navigate, success, invalidate, toast, Effect,
}
use kafkaesque.Api.Encode.{encode_uri_component}
use kafkaesque.Ui.Table.{clickable, action, table_body, Body, RowAction}
use kafkaesque.Prelude.{
  eqb, length, map, true, [], any, keep, min, some, if◌then◌else◌, none, not, ◌||◌, ◌∷◌, Bool, List,
  Option, String, false, ℕ,
}
use kafkaesque.Api.Types.{PartitionInfo, User, Topic}
use Prim.Native.String.{◌++◌ as ◌<>◌}

unfoldable pub is_internal_topic : Topic → Bool
is_internal_topic t = t.internal || starts_with t.name "__" || starts_with t.name "_"

unfoldable pub can_delete_topic : Topic → Bool
can_delete_topic t = not (is_internal_topic t)

-- `TopicDetail`: the numbers that it works out of the partitions.
dedupe : List ℕ → List ℕ → List ℕ
dedupe seen [] = []
dedupe seen (x ∷ xs) =
    let skipped = dedupe seen xs in
    let added = x ∷ dedupe (x ∷ seen) xs in if any (eqb x) seen then skipped else added

unfoldable pub leaders : List PartitionInfo → List ℕ
unfolding dedupe
leaders ps = dedupe [] (map (λ p. p.leader) ps)

unfoldable pub under_rep : Option (List PartitionInfo) → ℕ
under_rep none = 0
under_rep (some ps) = length (keep (λ p. p.under_replicated) ps)

min_from : ℕ → List PartitionInfo → ℕ
min_from m [] = m
min_from m (p ∷ ps) = min_from (min m (length p.isr)) ps

unfoldable pub min_isr : Option (List PartitionInfo) → Option ℕ
unfolding min_from
min_isr none = none
min_isr (some []) = none
min_isr (some (p ∷ ps)) = some (min_from (length p.isr) ps)

-- The component's state.
pub record TopicsState : Type 0 where
  pub filter : String
  pub hide_internal : Bool
  pub delete_target : Option String
  pub view_topic : Option Topic

unfoldable pub start : TopicsState
start = record { filter = ""; hide_internal = false; delete_target = none; view_topic = none }

unfoldable pub visible_topics : List Topic → TopicsState → List Topic
visible_topics topics s =
    if s.hide_internal then keep (λ t. not (is_internal_topic t)) topics else topics

-- What the handlers of a row do.
pub data RowCommand : Type 0 where
  view : Topic → RowCommand
  browse : String → RowCommand
  produce : String → RowCommand
  ask_delete : String → RowCommand

unfoldable pub topic_actions : Topic → List (RowAction RowCommand)
topic_actions t =
    action "View" (view t)
    ∷ action "Browse messages" (browse t.name)
    ∷ action "Produce message" (produce t.name)
    ∷ action "Configuration" (view t)
    ∷ (if can_delete_topic t
        then record (action "Delete" (ask_delete t.name)) { destructive = true } ∷ []
        else [])

unfoldable pub messages_link : String → String
messages_link topic = "/messages?topic=" <> encode_uri_component topic

unfoldable pub run : RowCommand → TopicsState → TopicsState × List Effect
run (view t) s = (record s { view_topic = some t }, [])
run (browse name) s = (s, navigate (messages_link name) ∷ [])
run (produce name) s = (s, dialog (open_produce_message (some name)) ∷ [])
run (ask_delete name) s = (record s { delete_target = some name }, [])

-- The confirm button of the dialog. `pending` is `remove.isPending`, under which it is disabled.
unfoldable pub confirm_delete : String → Bool → TopicsState → TopicsState × List Effect
confirm_delete cluster pending s = elim s.delete_target [
  | none ↦ (s, [])
  | some name ↦
      if is_blank name || not (clickable false pending)
      then (s, [])
      else (s, mutate (delete_topic cluster name) ∷ [])
]

unfoldable pub cancel_delete : Bool → TopicsState → TopicsState × List Effect
cancel_delete pending s = (record s { delete_target = none }, [])

unfoldable pub deleted : String → TopicsState → TopicsState × List Effect
deleted cluster s = (
  record s { delete_target = none },
  invalidate ("topics" ∷ cluster ∷ []) ∷ toast success "Topic deleted" ∷ [],
)

unfoldable pub delete_failed : String → TopicsState → TopicsState × List Effect
delete_failed message s = (s, toast error message ∷ [])

unfoldable pub table : Bool → Option String → List Topic → TopicsState → Body Topic
table loading failure topics s =
    table_body loading failure "No topics found"
      (some "Create a topic or check cluster connectivity.") (some s.filter)
      (some (λ t f. has_text (to_lower t.name) (to_lower f))) (visible_topics topics s)

-- The buttons of the header that the user sees: to produce a message, and to create a topic.
unfoldable pub header_buttons : Option User → Shown × Shown
header_buttons user = (
  permission_guard user "message.publish" none any_of,
  permission_guard user "topic.create" none any_of,
)
