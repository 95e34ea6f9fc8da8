-- ===== src/Pages/Messages/Detail.antt =====
-- The controls and the rows of the page of messages (frontend/src/pages/MessagesPage.tsx).
use kafkaesque.Api.Encode.{search_params}
use kafkaesque.Prelude.Texts.{is_blank, some_text}
use kafkaesque.Prelude.Decimal.{to_text}
use kafkaesque.Ui.{open_produce_message, dialog, navigate, Effect}
use kafkaesque.Api.Types.{Topic, User, Message}
use kafkaesque.Pages.Messages.{◌<>◌, tail_mode, Messages}
use kafkaesque.Prelude.{[], or_else, map, if◌then◌else◌, ◌∷◌, List, Option, String, none, some}
use kafkaesque.Auth.Guards.{any_of, permission_guard, children, fallback}

-- The button to produce a message to the active topic.
unfoldable pub press_produce : Option User → String → Messages → Messages × List Effect
press_produce me topic s = elim (permission_guard me "message.publish" none any_of) [
  | children ↦
      if is_blank topic then (s, []) else (s, dialog (open_produce_message (some topic)) ∷ [])
  | fallback ↦ (s, [])
]

unfoldable pub topic_options : List Topic → List (String × String)
topic_options [] = ("", "No topics available") ∷ []
topic_options (t ∷ ts) = map (λ u. (u.name, u.name)) (t ∷ ts)

-- `setParams({ topic })`
unfoldable pub choose_topic : String → Messages → Messages × List Effect
choose_topic topic s = (s, navigate ("/messages?" <> search_params (("topic", topic) ∷ [])) ∷ [])

unfoldable pub type_partition : String → Messages → Messages
type_partition text s = record s { partition = text }

unfoldable pub type_offset : String → Messages → Messages
type_offset text s = record s { offset = text }

-- The button of the live tail, in the tail only.
unfoldable pub live_label : Messages → Option String
live_label s =
    if tail_mode s then some (if s.live_tail then "Live tail on" else "Live tail") else none

unfoldable pub streaming_note : Messages → Option String
streaming_note s = if s.live_tail then some "Streaming new messages via WebSocket…" else none

-- The cells of a row: time, partition, offset, key, value.
unfoldable pub message_cells : Message → List String
message_cells m =
    m.timestamp
    ∷ to_text m.partition
    ∷ to_text m.offset
    ∷ or_else (some_text m.key) "—"
    ∷ or_else (some_text (some m.value)) "—"
    ∷ []
