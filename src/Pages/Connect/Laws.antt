-- ===== src/Pages/Connect/Laws.antt =====
-- What the page of connectors sends.
use kafkaesque.Api.Transport.{Request}
use mathlib.Core.Path.{subst}
use kafkaesque.Ui.Table.{RowAction}
use kafkaesque.Api.Types.{ConnectorInfo, User}
use kafkaesque.Prelude.{
  arith, sym, inr, inl, Option-cases, refl, ◌++◌, Bool, Memᴰ, [], none, ◌∷◌, false, List, ◌≡◌,
  String, Option,
}
use kafkaesque.Ui.{Effect, sent}
use kafkaesque.Auth.Guards.{can, permission_guard, guard_allows, any_of, fallback}
use kafkaesque.Pages.Connect.{
  connector_actions, run, press_demo, press_restart, press_delete, close_drawer, confirm_delete,
  cancel_delete, restarted, deleted, seeded, failed, start, ConnectState, RowCommand, view,
}

module _ (me : Option User) (cluster : String) where
  -- What the user and the server do to the page. An entry of a menu comes from a row.
  pub data Event : Type 0 where
    pressed :
        (c : ConnectorInfo) (a : RowAction RowCommand) → Memᴰ a (connector_actions me c) → Event
    row_clicked : ConnectorInfo → Event
    typed chose_state refused : String → Event
    demo_pressed restart_pressed confirmed : Bool → Event
    delete_pressed drawer_closed cancelled : Event
    restart_answered delete_answered demo_answered : Event

  unfoldable pub on_event : Event → ConnectState → ConnectState × List Effect
  on_event (pressed c a m) s = run cluster a.click s
  on_event (row_clicked c) s = run cluster (view c) s
  on_event (typed text) s = (record s { filter = text }, [])
  on_event (chose_state text) s = (record s { state_filter = text }, [])
  on_event (refused message) s = failed message s
  on_event (demo_pressed pending) s = press_demo me cluster pending s
  on_event (restart_pressed pending) s = press_restart me cluster pending s
  on_event (confirmed pending) s = confirm_delete cluster pending s
  on_event delete_pressed s = press_delete me s
  on_event drawer_closed s = close_drawer s
  on_event cancelled s = cancel_delete s
  on_event restart_answered s = restarted cluster s
  on_event delete_answered s = deleted cluster s
  on_event demo_answered s = seeded cluster s

  -- The requests of a sequence of events.
  unfoldable pub all_sent : List Event → ConnectState → List Request
  all_sent [] s = []
  all_sent (e ∷ es) s = let (t, fs) = on_event e s in sent fs ++ all_sent es t

  guard-fallback :
      can me "connect.manage" ≡ false → permission_guard me "connect.manage" none any_of ≡ fallback
  unfolding permission_guard guard_allows
  guard-fallback h = rw h refl

  connector_actions-nil :
      can me "connect.manage" ≡ false → (c : ConnectorInfo) → connector_actions me c ≡ []
  unfolding connector_actions
  connector_actions-nil h c = rw (guard-fallback h, connector_actions) refl

  -- Nothing is sent, and no deletion is asked about.
  abbrev pub IsIdle : ConnectState × List Effect → Type 0
  IsIdle (s, es) = (s.delete_target ≡ none) × (sent es ≡ [])

  no_entry :
      can me "connect.manage" ≡ false
      → (c : ConnectorInfo) (a : RowAction RowCommand) → Memᴰ a (connector_actions me c)
      → ⊥
  no_entry h c a m = elim (rw (connector_actions-nil h c) at m) [ ]

  press_restart-IsIdle :
      can me "connect.manage" ≡ false
      → (pending : Bool) (s : ConnectState) → s.delete_target ≡ none
      → IsIdle (press_restart me cluster pending s)
  unfolding press_restart
  press_restart-IsIdle h pending s d =
      let same : press_restart me cluster pending s ≡ (s, []) =
        elim (Option-cases s.view_connector) [
          | inl e ↦ ground arith
          | inr (c, e) ↦ ground (arith, guard-fallback h)
        ] in
      subst IsIdle (sym same) (d, refl)

  press_delete-IsIdle :
      can me "connect.manage" ≡ false
      → (s : ConnectState) → s.delete_target ≡ none
      → IsIdle (press_delete me s)
  unfolding press_delete
  press_delete-IsIdle h s d =
      let same : press_delete me s ≡ (s, []) = elim (Option-cases s.view_connector) [
        | inl e ↦ ground arith
        | inr (c, e) ↦ ground (arith, guard-fallback h)
      ] in
      subst IsIdle (sym same) (d, refl)

  on_event-IsIdle :
      can me "connect.manage" ≡ false
      → (e : Event) (s : ConnectState) → s.delete_target ≡ none
      → IsIdle (on_event e s)
  unfolding on_event run press_demo close_drawer confirm_delete cancel_delete restarted deleted
      seeded failed
  on_event-IsIdle h (pressed c a m) s d = absurd (no_entry h c a m)
  on_event-IsIdle h (row_clicked c) s d = (d, refl)
  on_event-IsIdle h (typed text) s d = (d, refl)
  on_event-IsIdle h (chose_state text) s d = (d, refl)
  on_event-IsIdle h (refused message) s d = (d, refl)
  on_event-IsIdle h (demo_pressed pending) s d =
      let same : press_demo me cluster pending s ≡ (s, []) =
        rw (guard-fallback h, press_demo) refl in
      subst IsIdle (sym same) (d, refl)
  on_event-IsIdle h (restart_pressed pending) s d = press_restart-IsIdle h pending s d
  on_event-IsIdle h (confirmed pending) s d =
      let same : confirm_delete cluster pending s ≡ (s, []) = ground arith in
      subst IsIdle (sym same) (d, refl)
  on_event-IsIdle h delete_pressed s d = press_delete-IsIdle h s d
  on_event-IsIdle h drawer_closed s d = (d, refl)
  on_event-IsIdle h cancelled s d = (refl, refl)
  on_event-IsIdle h restart_answered s d = (d, refl)
  on_event-IsIdle h delete_answered s d = (refl, refl)
  on_event-IsIdle h demo_answered s d = (d, refl)

  all_sent-nil :
      can me "connect.manage" ≡ false
      → (es : List Event) (s : ConnectState) → s.delete_target ≡ none
      → all_sent es s ≡ []
  unfolding all_sent
  all_sent-nil h [] s d = refl
  all_sent-nil h (e ∷ es) s d =
      let (still, none_sent) = on_event-IsIdle h e s d in rw none_sent (all_sent-nil h es _ still)

-- A user who may not manage connectors sends no request of the page that changes one, whatever the
-- user does and the server answers.
all_sent-unmanaged :
    (me : Option User) (cluster : String) (es : List (Event me cluster))
    → can me "connect.manage" ≡ false
    → all_sent me cluster es start ≡ []
all_sent-unmanaged me cluster es h = all_sent-nil me cluster h es start refl
