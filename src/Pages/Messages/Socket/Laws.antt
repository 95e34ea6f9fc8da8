-- ===== src/Pages/Messages/Socket/Laws.antt =====
-- The live tail follows all partitions.
use kafkaesque.Pages.Messages.{
  Messages, start, reset, tail_mode, received, loaded, older_answered, older_failed, load_older,
  refresh, toggle_live,
}
use kafkaesque.Pages.Messages.Behaviour.{
  Event, on_event, on_events, typed_partition, typed_offset, picked, changed, streamed, answered,
  asked_older, got_older, lost_older, refreshed, toggled,
}
use kafkaesque.Pages.Messages.Socket.{live_socket, partition_of}
use kafkaesque.Api.Types.{Message, MessagesResponse}
use kafkaesque.Prelude.Texts.{is_blank, trim}
use kafkaesque.Prelude.{
  arith, refl, sym, ◌∙◌, ◌&&◌, ◌||◌, not, if◌then◌else◌, Bool-cases, inl, inr, [], ◌∷◌, true, Bool,
  List, Option, String, ℕ, none, some, ◌≡◌, ◌⊎◌,
}

-- The events with the effect that follows each change of the partition or the offset.
abbrev pub with_effects : List Event → List Event
with_effects [] = []
with_effects (typed_partition t ∷ es) = typed_partition t ∷ changed ∷ with_effects es
with_effects (typed_offset t ∷ es) = typed_offset t ∷ changed ∷ with_effects es
with_effects (picked m ∷ es) = picked m ∷ with_effects es
with_effects (changed ∷ es) = changed ∷ with_effects es
with_effects (streamed m ∷ es) = streamed m ∷ with_effects es
with_effects (answered r ∷ es) = answered r ∷ with_effects es
with_effects (asked_older c t ∷ es) = asked_older c t ∷ with_effects es
with_effects (got_older r ∷ es) = got_older r ∷ with_effects es
with_effects (lost_older ∷ es) = lost_older ∷ with_effects es
with_effects (refreshed c t ∷ es) = refreshed c t ∷ with_effects es
with_effects (toggled t ∷ es) = toggled t ∷ with_effects es

-- The live tail is on only while neither a partition nor an offset is given.
abbrev IsTail : Messages → Type 0
IsTail s = s.live_tail ≡ true → tail_mode s ≡ true

-- An event that leaves the three fields alone keeps it.
IsTail-same :
    (s t : Messages)
    → t.live_tail ≡ s.live_tail
    → t.partition ≡ s.partition
    → t.offset ≡ s.offset
    → IsTail s
    → IsTail t
unfolding tail_mode
IsTail-same s t l p o h e = rw (p, o) (h (sym l ∙ e))

IsTail-reset : (s : Messages) → IsTail (reset s)
unfolding reset
IsTail-reset s e = absurd (ground arith)

tail_mode-live :
    (live : Bool) (s : Messages)
    → tail_mode s ≡ true
    → tail_mode (record s { live_tail = live }) ≡ true
unfolding tail_mode
tail_mode-live live s h = h

IsTail-toggled : (topic : String) (s : Messages) → IsTail s → IsTail (toggle_live topic s)
unfolding toggle_live
IsTail-toggled topic s h = elim (Bool-cases (tail_mode s && not (is_blank topic))) [
  | inl b ↦ rw b (λ e. tail_mode-live (not s.live_tail) s (ground (arith, b)))
  | inr b ↦ rw b h
]

IsTail-streamed :
    (m : Option Message) (s : Messages)
    → IsTail s
    → IsTail (if s.live_tail then received m s else s)
unfolding received
IsTail-streamed none s h = IsTail-same s _ (ground arith) (ground arith) (ground arith) h
IsTail-streamed (some m) s h = IsTail-same s _ (ground arith) (ground arith) (ground arith) h

IsTail-loaded : (r : MessagesResponse) (s : Messages) → IsTail s → IsTail (loaded r s)
unfolding loaded
IsTail-loaded r s h = IsTail-same s _ (ground arith) (ground arith) (ground arith) h

IsTail-asked :
    (cluster topic : String) (s : Messages) → IsTail s → IsTail (load_older cluster topic s).0
unfolding load_older
IsTail-asked cluster topic s h = IsTail-same s _ (ground arith) (ground arith) (ground arith) h

IsTail-with_effects :
    (es : List Event) (s : Messages) → IsTail s → IsTail (on_events (with_effects es) s)
unfolding on_events on_event
IsTail-with_effects [] s h = h
IsTail-with_effects (typed_partition t ∷ es) s h = IsTail-with_effects es _ (IsTail-reset _)
IsTail-with_effects (typed_offset t ∷ es) s h = IsTail-with_effects es _ (IsTail-reset _)
IsTail-with_effects (picked m ∷ es) s h =
    IsTail-with_effects es _ (IsTail-same s _ refl refl refl h)
IsTail-with_effects (changed ∷ es) s h = IsTail-with_effects es _ (IsTail-reset _)
IsTail-with_effects (streamed m ∷ es) s h = IsTail-with_effects es _ (IsTail-streamed m s h)
IsTail-with_effects (answered r ∷ es) s h = IsTail-with_effects es _ (IsTail-loaded r s h)
IsTail-with_effects (asked_older c t ∷ es) s h = IsTail-with_effects es _ (IsTail-asked c t s h)
IsTail-with_effects (got_older r ∷ es) s h =
    IsTail-with_effects es _ (unfold older_answered in IsTail-same s _ refl refl refl h)
IsTail-with_effects (lost_older ∷ es) s h =
    IsTail-with_effects es _ (unfold older_failed in IsTail-same s _ refl refl refl h)
IsTail-with_effects (refreshed c t ∷ es) s h =
    IsTail-with_effects es _ (unfold refresh in IsTail-same s _ refl refl refl h)
IsTail-with_effects (toggled t ∷ es) s h = IsTail-with_effects es _ (IsTail-toggled t s h)

-- Whatever happened to the page, with the effect that follows each change of the partition and the
-- offset, the socket that is open, if any, is that of the whole topic: it names no partition.
live_socket-whole_topic :
    (number : String → ℕ) (url : String → String → Option ℕ → String) (cluster topic : String)
    (es : List Event)
    → let s = on_events (with_effects es) start in
      (live_socket number url cluster topic s ≡ none)
      ⊎ (live_socket number url cluster topic s ≡ some (url cluster topic none))
unfolding live_socket partition_of tail_mode
live_socket-whole_topic number url cluster topic es =
    let s = on_events (with_effects es) start in
    elim (Bool-cases s.live_tail) [
      | inr e ↦ inl (rw e refl)
      | inl e ↦
          whole s e (IsTail-with_effects es start (unfold start in λ e. absurd (ground arith)) e)
    ]
  where
    whole :
        (s : Messages)
        → s.live_tail ≡ true
        → tail_mode s ≡ true
        → (live_socket number url cluster topic s ≡ none)
          ⊎ (live_socket number url cluster topic s ≡ some (url cluster topic none))
    whole s e t =
        let blank : is_blank (trim s.partition) ≡ true = ground (arith, t) in
        elim (Bool-cases (is_blank cluster || is_blank topic)) [
          | inl b ↦ inl (ground arith)
          | inr b ↦ inr (ground arith)
        ]
