-- ===== src/Pages/Topics/Laws.antt =====
-- What the topics page deletes and shows.
use kafkaesque.Prelude.Texts.{is_blank}
use mathlib.Core.Path.{subst}
use kafkaesque.Api.Client.{delete_topic}
use kafkaesque.Api.Transport.{Request}
use kafkaesque.Ui.{mutate, Effect}
use kafkaesque.Ui.Table.{clickable, RowAction}
use kafkaesque.Pages.Topics.{
  start, visible_topics, delete_failed, produce, browse, deleted, cancel_delete, view,
  confirm_delete, ask_delete, run, RowCommand, is_internal_topic, can_delete_topic, TopicsState,
  topic_actions,
}
use kafkaesque.Prelude.{
  ◌&&◌, keep_of_mem, sym, mem_of_keep, ◌||◌, not, refl, keep, Option-cases, arith, ◌↔◌, All,
  All-lookup, inr, inl, Bool-cases, Bool, [], Memᴰ, false, some, ◌∷◌, List, ◌≡◌, String,
}
use kafkaesque.Api.Types.{Topic}

module _ (listed : List Topic) where
  -- What the user and the server do to the page. A row command comes from a topic that the
  -- server listed at some time; `listed` has them all.
  pub data Event : Type 0 where
    pressed :
        (t : Topic) → Memᴰ t listed → (a : RowAction RowCommand) → Memᴰ a (topic_actions t) → Event
    typed : String → Event
    hid : Bool → Event
    confirmed : Bool → Event
    cancelled : Bool → Event
    answered : Event
    failed : String → Event

  unfoldable pub on_event : String → Event → TopicsState → TopicsState × List Effect
  on_event cluster (pressed t k a m) s = run a.click s
  on_event cluster (typed f) s = (record s { filter = f }, [])
  on_event cluster (hid b) s = (record s { hide_internal = b }, [])
  on_event cluster (confirmed pending) s = confirm_delete cluster pending s
  on_event cluster (cancelled pending) s = cancel_delete pending s
  on_event cluster answered s = deleted cluster s
  on_event cluster (failed message) s = delete_failed message s

  unfoldable pub on_events : String → List Event → TopicsState → TopicsState
  on_events cluster [] s = s
  on_events cluster (e ∷ es) s = on_events cluster es (on_event cluster e s).0

  -- The name of a listed topic that was not internal.
  abbrev pub IsDeletable : String → Type 0
  IsDeletable name = (t : Topic) × Memᴰ t listed × (t.name ≡ name) × (is_internal_topic t ≡ false)

  abbrev pub TargetIsDeletable : TopicsState → Type 0
  TargetIsDeletable s = (name : String) → s.delete_target ≡ some name → IsDeletable name

  -- What an action asks to delete.
  abbrev AsksDeletable : RowAction RowCommand → Type 0
  AsksDeletable a = (name : String) → a.click ≡ ask_delete name → IsDeletable name

  -- Only the action to delete asks for a deletion, and an internal topic has none.
  topic_actions-AsksDeletable : (t : Topic) → Memᴰ t listed → All AsksDeletable (topic_actions t)
  unfolding topic_actions can_delete_topic
  topic_actions-AsksDeletable t k = elim (Bool-cases (is_internal_topic t)) [
    | inl i ↦ rw i ((λ n e. cc), ((λ n e. cc), ((λ n e. cc), ((λ n e. cc), tt))))
    | inr i ↦
        rw i
          ((λ n e. cc), ((λ n e. cc), ((λ n e. cc), ((λ n e. cc), ((λ n e. (t, k, cc, i)), tt)))))
  ]

  run-TargetIsDeletable :
      (c : RowCommand) (s : TopicsState)
      → ((name : String) → c ≡ ask_delete name → IsDeletable name)
      → TargetIsDeletable s
      → TargetIsDeletable (run c s).0
  unfolding run
  run-TargetIsDeletable (view t) s ok h = h
  run-TargetIsDeletable (browse n) s ok h = h
  run-TargetIsDeletable (produce n) s ok h = h
  run-TargetIsDeletable (ask_delete n) s ok h = λ name e. ok name (cc)

  pub on_event-TargetIsDeletable :
      (cluster : String) (e : Event) (s : TopicsState)
      → TargetIsDeletable s
      → TargetIsDeletable (on_event cluster e s).0
  unfolding on_event confirm_delete cancel_delete deleted delete_failed
  on_event-TargetIsDeletable cluster (pressed t k a m) s h =
      run-TargetIsDeletable a.click s
        (All-lookup AsksDeletable _ (topic_actions-AsksDeletable t k) m) h
  on_event-TargetIsDeletable cluster (typed f) s h = h
  on_event-TargetIsDeletable cluster (hid b) s h = h
  on_event-TargetIsDeletable cluster (confirmed pending) s h = λ name e. h name (ground arith)
  on_event-TargetIsDeletable cluster (cancelled pending) s h = λ name e. cc
  on_event-TargetIsDeletable cluster answered s h = λ name e. cc
  on_event-TargetIsDeletable cluster (failed message) s h = h

  on_events-TargetIsDeletable :
      (cluster : String) (es : List Event) (s : TopicsState)
      → TargetIsDeletable s
      → TargetIsDeletable (on_events cluster es s)
  unfolding on_events
  on_events-TargetIsDeletable cluster [] s h = h
  on_events-TargetIsDeletable cluster (e ∷ es) s h =
      on_events-TargetIsDeletable cluster es _ (on_event-TargetIsDeletable cluster e s h)

  -- What a request of an event must be.
  abbrev pub Deletes : String → Effect → Type 0
  Deletes cluster e =
      (r : Request)
      → e ≡ mutate r
      → (name : String) × (r ≡ delete_topic cluster name) × IsDeletable name

  confirm-Deletes :
      (cluster : String) (pending : Bool) (s : TopicsState)
      → TargetIsDeletable s
      → All (Deletes cluster) (confirm_delete cluster pending s).1
  unfolding confirm_delete
  confirm-Deletes cluster pending s h = elim (Option-cases s.delete_target) [
    | inl e ↦
        let none_sent : (confirm_delete cluster pending s).1 ≡ [] = ground arith in
        subst (All (Deletes cluster)) (sym none_sent) tt
    | inr (name, e) ↦ elim (Bool-cases (is_blank name || not (clickable false pending))) [
      | inl b ↦
          let none_sent : (confirm_delete cluster pending s).1 ≡ [] = ground arith in
          subst (All (Deletes cluster)) (sym none_sent) tt
      | inr b ↦
          let one_sent : (confirm_delete cluster pending s).1
              ≡ mutate (delete_topic cluster name) ∷ [] =
            ground arith in
          subst (All (Deletes cluster)) (sym one_sent) ((λ r q. (name, cc, h name e)), tt)
    ]
  ]

  run-Deletes :
      (cluster : String) (c : RowCommand) (s : TopicsState) → All (Deletes cluster) (run c s).1
  unfolding run
  run-Deletes cluster (view u) s = tt
  run-Deletes cluster (browse n) s = ((λ r q. cc), tt)
  run-Deletes cluster (produce n) s = ((λ r q. cc), tt)
  run-Deletes cluster (ask_delete n) s = tt

  pub on_event-Deletes :
      (cluster : String) (e : Event) (s : TopicsState)
      → TargetIsDeletable s
      → All (Deletes cluster) (on_event cluster e s).1
  unfolding on_event cancel_delete deleted delete_failed
  on_event-Deletes cluster (pressed t k a m) s h = run-Deletes cluster a.click s
  on_event-Deletes cluster (typed f) s h = tt
  on_event-Deletes cluster (hid b) s h = tt
  on_event-Deletes cluster (confirmed pending) s h = confirm-Deletes cluster pending s h
  on_event-Deletes cluster (cancelled pending) s h = tt
  on_event-Deletes cluster answered s h = ((λ r q. cc), ((λ r q. cc), tt))
  on_event-Deletes cluster (failed message) s h = ((λ r q. cc), tt)

  -- After any events, whatever comes next, the page sends no other request than to delete a topic of
  -- the selected cluster by the name of a listed topic that was not internal.
  pub sends-IsDeletable :
      (cluster : String) (es : List Event) (e : Event) (r : Request)
      → Memᴰ (mutate r) (on_event cluster e (on_events cluster es start)).1
      → (name : String) × (r ≡ delete_topic cluster name) × IsDeletable name
  sends-IsDeletable cluster es e r m =
      All-lookup (Deletes cluster) _
        (on_event-Deletes cluster e (on_events cluster es start)
          (on_events-TargetIsDeletable cluster es start (unfold start in (λ n q. cc))))
        m r refl

-- With internal topics hidden none is listed; and nothing else is left out.
visible_topics_iff :
    (topics : List Topic) (s : TopicsState) (t : Topic)
    → Memᴰ t (visible_topics topics s)
      ↔ (Memᴰ t topics × ((s.hide_internal && is_internal_topic t) ≡ false))
unfolding visible_topics
visible_topics_iff topics s t = elim (Bool-cases s.hide_internal) [
  | inl e ↦
      let shown : visible_topics topics s ≡ keep (λ u. not (is_internal_topic u)) topics =
        ground arith in
      (
        λ m.
            let (k, h) = mem_of_keep (λ u. not (is_internal_topic u)) topics (rw e at m) in
            (k, ground arith),
        λ (m, h).
            subst (Memᴰ t) (sym shown)
              (keep_of_mem (λ u. not (is_internal_topic u)) topics m (ground arith)),
      )
  | inr e ↦
      let shown : visible_topics topics s ≡ topics = ground arith in
      (λ m. (subst (Memᴰ t) shown m, ground arith), λ (m, h). subst (Memᴰ t) (sym shown) m)
]
