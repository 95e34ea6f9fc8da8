-- ===== src/Pages/Messages/Behaviour.antt =====
-- What the handlers of the messages page keep.
use mathlib.Core.Path.{subst}
use kafkaesque.Pages.Messages.Merge.{merge_messages-Distinct, keys, Distinct}
use kafkaesque.Api.Types.{MessagesResponse, Message}
use kafkaesque.Pages.Messages.{
  toggle_live, merge_messages, refresh, start, older_failed, tail_mode, can_load_older, loaded,
  older_answered, Messages, displayed, load_older, received, reset,
}
use kafkaesque.Prelude.{
  or_else, is_empty, inr, not, inl, length-last_n-le, refl, ◌&&◌, Bool-cases, arith, zero, ◌-◌, [],
  suc, sym, true, drop, none, some, ◌≤◌, Option, if◌then◌else◌, length, ◌∷◌, ◌≡◌, List, String, ℕ,
}

keys-drop : (n : ℕ) (ms : List Message) → keys (drop n ms) ≡ drop n (keys ms)
keys-drop zero ms = refl
keys-drop (suc n) [] = refl
keys-drop (suc n) (m ∷ ms) = keys-drop n ms

Distinct-drop : (n : ℕ) (ss : List String) → Distinct ss → Distinct (drop n ss)
Distinct-drop zero ss h = h
Distinct-drop (suc n) [] h = h
Distinct-drop (suc n) (s ∷ ss) h = Distinct-drop n ss h.1

-- At most 100 messages came in by the live tail, no two of them of one key.
pub record IsLive (s : Messages) : Type 0 where
  pub bounded : length s.live_messages ≤ 100
  pub distinct : Distinct (keys s.live_messages)

-- What the user and the server do to the page.
pub data Event : Type 0 where
  typed_partition typed_offset : String → Event
  picked : Option Message → Event
  changed : Event
  streamed : Option Message → Event
  answered : MessagesResponse → Event
  asked_older : String → String → Event
  got_older : MessagesResponse → Event
  lost_older : Event
  refreshed : String → String → Event
  toggled : String → Event

unfoldable pub on_event : Event → Messages → Messages
on_event (typed_partition t) s = record s { partition = t }
on_event (typed_offset t) s = record s { offset = t }
on_event (picked m) s = record s { selected = m }
on_event changed s = reset s
on_event (streamed m) s = if s.live_tail then received m s else s
on_event (answered r) s = loaded r s
on_event (asked_older cluster topic) s = (load_older cluster topic s).0
on_event (got_older r) s = older_answered r s
on_event lost_older s = older_failed s
on_event (refreshed cluster topic) s = (refresh cluster topic s).0
on_event (toggled topic) s = toggle_live topic s

unfoldable pub on_events : List Event → Messages → Messages
on_events [] s = s
on_events (e ∷ es) s = on_events es (on_event e s)

received-IsLive : (m : Option Message) (s : Messages) → IsLive s → IsLive (received m s)
unfolding received
received-IsLive none s h = h
received-IsLive (some m) s h =
    let merged = merge_messages s.live_messages (m ∷ []) in
    let n = length merged - 100 in
    record {
      bounded = length-last_n-le 100 merged;
      distinct = subst Distinct (sym (keys-drop n merged)) (
          Distinct-drop n (keys merged)
            (merge_messages-Distinct s.live_messages (m ∷ []) h.distinct));
    }

-- A handler that leaves the live messages alone keeps the property.
IsLive-same : (s t : Messages) → t.live_messages ≡ s.live_messages → IsLive s → IsLive t
IsLive-same s t e h = record {
  bounded = subst (λ ms. length ms ≤ 100) (sym e) h.bounded;
  distinct = subst (λ ms. Distinct (keys ms)) (sym e) h.distinct;
}

on_event-IsLive : (e : Event) (s : Messages) → IsLive s → IsLive (on_event e s)
unfolding on_event reset loaded load_older older_answered older_failed refresh toggle_live
on_event-IsLive (typed_partition t) s h = IsLive-same s _ refl h
on_event-IsLive (typed_offset t) s h = IsLive-same s _ refl h
on_event-IsLive (picked m) s h = IsLive-same s _ refl h
on_event-IsLive changed s h = record { bounded = omega arith; distinct = tt }
on_event-IsLive (streamed m) s h = elim (Bool-cases s.live_tail) [
  | inl e ↦ subst IsLive (ground arith) (received-IsLive m s h)
  | inr e ↦ subst IsLive (ground arith) h
]
on_event-IsLive (answered r) s h = IsLive-same s _ (ground arith) h
on_event-IsLive (asked_older cluster topic) s h = IsLive-same s _ (ground arith) h
on_event-IsLive (got_older r) s h = IsLive-same s _ refl h
on_event-IsLive lost_older s h = IsLive-same s _ refl h
on_event-IsLive (refreshed cluster topic) s h = IsLive-same s _ refl h
on_event-IsLive (toggled topic) s h = IsLive-same s _ (ground arith) h

on_events-IsLive : (es : List Event) (s : Messages) → IsLive s → IsLive (on_events es s)
unfolding on_events
on_events-IsLive [] s h = h
on_events-IsLive (e ∷ es) s h = on_events-IsLive es (on_event e s) (on_event-IsLive e s h)

-- After any events, at most 100 streamed messages are kept, no two of them of one key; and if the
-- server answers without repeating a key, no two rows of the table have one key.
pub displayed-Distinct :
    (es : List Event) (items : List Message)
    → Distinct (keys items)
    → let s = on_events es start in
      (length s.live_messages ≤ 100)
      × Distinct (keys s.live_messages)
      × Distinct (keys (displayed items s))
unfolding displayed
displayed-Distinct es items h =
    let s = on_events es start in
    let live = on_events-IsLive es start (start-IsLive) in
    (live.bounded, live.distinct, shown s live)
  where
    start-IsLive : IsLive start
    start-IsLive = unfold start in record { bounded = omega arith; distinct = tt }

    shown : (s : Messages) → IsLive s → Distinct (keys (displayed items s))
    shown s live = elim (Bool-cases (s.live_tail && not (is_empty s.live_messages))) [
      | inl e ↦ rw e live.distinct
      | inr e ↦ elim (Bool-cases (tail_mode s)) [
        | inl t ↦ rw (e, t) (merge_messages-Distinct items s.older_messages h)
        | inr t ↦ rw (e, t) h
      ]
    ]

-- An older page is asked for only in the tail, with the cursor of the last page, when there is more;
-- and while it is loading no other one is asked for.
load_older-once :
    (cluster topic : String) (s : Messages) (q : List (String × String))
    → (load_older cluster topic s).1 ≡ some q
    → (tail_mode s ≡ true)
      × (s.has_more ≡ true)
      × (q ≡ ("limit", "50") ∷ ("cursor", or_else s.tail_cursor "") ∷ [])
      × ((cluster' topic' : String)
          → (load_older cluster' topic' (load_older cluster topic s).0).1 ≡ none)
unfolding load_older can_load_older
load_older-once cluster topic s q e =
    (ground arith, ground arith, ground arith, λ cluster' topic'. ground arith)
