-- ===== src/Examples/Tails.antt =====
-- Messages of a topic, as pages and as a live tail.
use kafkaesque.Pages.Messages.Merge.{
  merge_messages-extends, Covered, keys, merge_messages_idempotent, Distinct,
}
use kafkaesque.Prelude.Texts.{trim_end, trim_start, trim}
use kafkaesque.Prelude.{◌++◌, false, [], none, refl, some, true, ◌≤◌, List, length, ℕ, ◌∷◌, ◌≡◌}
use kafkaesque.Pages.Messages.{
  merge_messages, Messages, can_load_older, displayed, start, load_older, tail_mode,
}
use kafkaesque.Pages.Messages.Behaviour.{displayed-Distinct, Event, on_events, toggled, streamed}
use kafkaesque.Api.Types.{Message, MessagesResponse}

abbrev message : ℕ → Message
message n = record {
  topic = "orders";
  partition = 0;
  offset = n;
  timestamp = "2024-01-01T00:00:00Z";
  key = none;
  value = "{}";
  headers = none;
}

merge_messages_idempotent_example :
    let a = message 1 ∷ message 2 ∷ [] in
    let b = message 2 ∷ message 3 ∷ message 3 ∷ [] in
    merge_messages (merge_messages a b) b ≡ merge_messages a b
merge_messages_idempotent_example =
    merge_messages_idempotent (message 1 ∷ message 2 ∷ []) (message 2 ∷ message 3 ∷ message 3 ∷ [])

merge_messages-extends_example :
    let a = message 1 ∷ message 2 ∷ [] in
    let b = message 2 ∷ message 3 ∷ [] in
    ((new : List Message) × (merge_messages a b ≡ a ++ new))
    × Covered (keys (merge_messages a b)) (keys b)
merge_messages-extends_example =
    merge_messages-extends (message 1 ∷ message 2 ∷ []) (message 2 ∷ message 3 ∷ [])

abbrev live : List Event
live = toggled "orders" ∷ streamed (some (message 1)) ∷ streamed (some (message 1)) ∷ []

displayed-Distinct_example :
    (length (on_events live start).live_messages ≤ 100)
    × Distinct (keys (on_events live start).live_messages)
    × Distinct (keys (displayed (message 5 ∷ []) (on_events live start)))
displayed-Distinct_example = displayed-Distinct live (message 5 ∷ []) (refl, tt)

abbrev paged : Messages
paged = record {
  partition = "";
  offset = "";
  selected = none;
  older_messages = [];
  tail_cursor = some "abc";
  has_more = true;
  loading_more = false;
  live_tail = false;
  live_messages = [];
}

first_page : (load_older "c1" "orders" paged).1 ≡ some (("limit", "50") ∷ ("cursor", "abc") ∷ [])
unfolding load_older can_load_older tail_mode trim trim_start trim_end
first_page = refl

abbrev late : MessagesResponse
late = record { items = message 9 ∷ []; mode = none; has_more = none; cursor = none }
