-- ===== src/Pages/Messages.antt =====
-- `MessagesContent` (frontend/src/pages/MessagesPage.tsx): the tail of a topic, older pages of it, and
-- the live tail.
pub mod Detail
pub mod Socket
pub mod Merge
pub mod Keys
pub mod Behaviour
use kafkaesque.Prelude.Texts.{includes, is_blank, some_text, trim}
use kafkaesque.Prelude.Decimal.{to_text}
use kafkaesque.Prelude.{
  length, is_empty, is_some, last_n, not, or_else, true, ◌++◌, if◌then◌else◌, map, some, ◌&&◌, ◌∷◌,
  Bool, List, Option, String, [], false, none,
}
use kafkaesque.Api.Types.{tail, lookup, Topic, Message, MessagesResponse}
use Prim.Native.String.{◌++◌ as ◌<>◌}
use kafkaesque.Ui.Table.{table_body, Body}
use kafkaesque.Ui.{Effect, invalidate}

unfoldable pub message_row_key : Message → String
message_row_key m = to_text m.partition <> ("-" <> to_text m.offset)

-- The loop of `mergeMessages`: `seen` holds the keys of `next`.
unfoldable pub merge_from : List String → List Message → List Message → List Message
merge_from seen next [] = next
merge_from seen next (m ∷ ms) =
    let skipped = merge_from seen next ms in
    let added = merge_from (message_row_key m ∷ seen) (next ++ m ∷ []) ms in
    if includes seen (message_row_key m) then skipped else added

unfoldable pub merge_messages : List Message → List Message → List Message
merge_messages existing incoming = merge_from (map message_row_key existing) existing incoming

-- The component's state.
pub record Messages : Type 0 where
  pub partition : String
  pub offset : String
  pub selected : Option Message
  pub older_messages : List Message
  pub tail_cursor : Option String
  pub has_more : Bool
  pub loading_more : Bool
  pub live_tail : Bool
  pub live_messages : List Message

unfoldable pub start : Messages
start = record {
  partition = "";
  offset = "";
  selected = none;
  older_messages = [];
  tail_cursor = none;
  has_more = false;
  loading_more = false;
  live_tail = false;
  live_messages = [];
}

unfoldable pub tail_mode : Messages → Bool
tail_mode s = is_blank (trim s.partition) && is_blank (trim s.offset)

-- `topic || topics[0]?.name || ''`
unfoldable pub active_topic : String → List Topic → String
active_topic topic [] = topic
active_topic topic (t ∷ ts) = if is_blank topic then t.name else topic

-- The effect on the cluster, the topic, the partition and the offset.
unfoldable pub reset : Messages → Messages
reset s = record s {
  older_messages = [];
  tail_cursor = none;
  has_more = false;
  live_messages = [];
  live_tail = false;
}

-- `ws.onmessage`; `none` is a malformed message.
unfoldable pub received : Option Message → Messages → Messages
received none s = s
received (some m) s = record s {
  live_messages = last_n 100 (merge_messages s.live_messages (m ∷ []));
}

-- The query's parameters.
unfoldable pub query_params : Messages → List (String × String)
query_params s =
    let part = trim s.partition in
    let off = trim s.offset in
    ("limit", "50")
    ∷ (if tail_mode s
        then []
        else ("partition", if is_blank part then "0" else part)
          ∷ (if is_blank off then [] else ("offset", off) ∷ []))

-- `messages.data` changed.
unfoldable pub loaded : MessagesResponse → Messages → Messages
loaded r s = elim r.mode [
  | none ↦ s
  | some m ↦ elim m [
    | tail ↦ record s {
      tail_cursor = some_text r.cursor;
      has_more = or_else r.has_more false;
      older_messages = [];
    }
    | lookup ↦ s
  ]
]

-- What `messages.data?.items ?? []` holds is the first argument.
unfoldable pub displayed : List Message → Messages → List Message
displayed items s =
    if s.live_tail && not (is_empty s.live_messages)
    then s.live_messages
    else if not (tail_mode s)
    then items
    else merge_messages items s.older_messages

-- Whether `loadOlder` goes on.
unfoldable pub can_load_older : String → String → Messages → Bool
can_load_older cluster topic s =
    tail_mode s
    && is_some (some_text s.tail_cursor)
    && s.has_more
    && not s.loading_more
    && not (is_blank cluster)
    && not (is_blank topic)

-- `loadOlder` up to its call, with the parameters that it sends.
unfoldable pub load_older : String → String → Messages → Messages × Option (List (String × String))
load_older cluster topic s =
    if can_load_older cluster topic s
    then (
      record s { loading_more = true },
      some (("limit", "50") ∷ ("cursor", or_else s.tail_cursor "") ∷ []),
    )
    else (s, none)

-- Its call is answered, with success or failure.
unfoldable pub older_answered : MessagesResponse → Messages → Messages
older_answered r s = record s {
  older_messages = merge_messages s.older_messages r.items;
  tail_cursor = some_text r.cursor;
  has_more = or_else r.has_more false;
  loading_more = false;
}

unfoldable pub older_failed : Messages → Messages
older_failed s = record s { loading_more = false }

unfoldable pub refresh : String → String → Messages → Messages × List Effect
refresh cluster topic s = (
  record s { older_messages = []; tail_cursor = none; has_more = false },
  invalidate ("messages" ∷ cluster ∷ topic ∷ s.partition ∷ s.offset ∷ []) ∷ [],
)

-- The controls under a table that loads or failed (`busy`) or shows its rows.
unfoldable pub older_button : Bool → Messages → Bool
older_button busy s = tail_mode s && s.has_more && not busy

unfoldable pub toggle_live : String → Messages → Messages
toggle_live topic s =
    if tail_mode s && not (is_blank topic) then record s { live_tail = not s.live_tail } else s

-- The line above the table.
unfoldable pub caption : Bool → String → List Message → Messages → Option String
caption busy topic items s =
    if tail_mode s && not busy && not (is_blank topic)
    then some (
        if is_empty s.older_messages
        then "Showing latest 50 messages across all partitions"
        else "Showing "
          <> (to_text (length (displayed items s)) <> " messages across all partitions"))
    else none

unfoldable pub table : Bool → Option String → List Message → Messages → Body Message
table loading error items s =
    table_body loading error "No messages"
      (some (
        if tail_mode s
        then "Publish a message or wait for producers to send events to this topic."
        else "Try a different partition or offset, or publish a message."))
      none none (displayed items s)
