-- ===== src/Console/Connect.antt =====
-- The page of connectors in the console.
use kafkaesque.Api.Client.{create_connector, delete_connector, restart_connector}
use mathlib.Core.Path.{subst}
use kafkaesque.Ui.{Effect}
use kafkaesque.Ui.Table.{clickable, RowAction}
use kafkaesque.Auth.Guards.{can}
use kafkaesque.Prelude.{
  false, [], Bool-cases, arith, inr, inl, true, Bool, List, Option-cases, Memᴰ, String, refl, none,
  some, Option, ◌≡◌,
}
use kafkaesque.Api.Types.{User, ConnectorInfo}
use kafkaesque.Console.{PageModel}
use kafkaesque.Console.Requests.{
  note, Past, Had, Had-cons, Goes, Goes-idle, Goes-sends, restarts_connector, deletes_connector,
  creates_connector,
}
use kafkaesque.Pages.Connect.{
  failed, run, press_demo, press_restart, press_delete, confirm_delete, cancel_delete, close_drawer,
  restarted, deleted, seeded, start, ConnectState, RowCommand, view, ask_delete, restart,
  connector_actions, demo_name, demo_config,
}
use kafkaesque.Pages.Connect.Laws.{
  Event, on_event, pressed, row_clicked, typed, chose_state, refused, demo_pressed, restart_pressed,
  confirmed, delete_pressed, drawer_closed, cancelled, restart_answered, delete_answered,
  demo_answered,
}
use kafkaesque.Auth.Guards.Laws.{guard-cases}

-- A deletion that is asked about, a user who manages connectors has asked for.
pub record ConnectIsSafe (past : Past) (s : ConnectState) : Type 0 where
  pub deleting : (c : ConnectorInfo) → s.delete_target ≡ some c → Had past "connect.manage"

idle_target : (past : Past) (s : ConnectState) → s.delete_target ≡ none → ConnectIsSafe past s
idle_target past s h = record { deleting = λ c e. absurd (cc) }

module _ (me : Option User) (cluster : String) (past : Past) (here : Memᴰ me past.users) where
  abbrev Fine : ConnectState × List Effect → Type 0
  Fine = Goes (ConnectIsSafe past) past

  run-Goes :
      (c : RowCommand) (s : ConnectState)
      → can me "connect.manage" ≡ true
      → ConnectIsSafe past s
      → Fine (run cluster c s)
  unfolding run
  run-Goes (view c) s k h = (record { deleting = h.deleting }, tt)
  run-Goes (ask_delete c) s k h = (record { deleting = λ d e. (me, here, k) }, tt)
  run-Goes (restart name) s k h = (h, (restarts_connector (me, here, k) cluster name, tt))

  -- The menu of a row is there for a user who manages connectors.
  menu-can :
      (c : ConnectorInfo) (a : RowAction RowCommand)
      → Memᴰ a (connector_actions me c)
      → can me "connect.manage" ≡ true
  unfolding connector_actions
  menu-can c a m = elim (guard-cases me "connect.manage") [
    | inl (e, g) ↦ e
    | inr (e, g) ↦
        let empty : connector_actions me c ≡ [] = rw (g, connector_actions) refl in
        absurd (elim (subst (Memᴰ a) empty m) [ ])
  ]

  press_demo-Goes :
      (pending : Bool) (s : ConnectState)
      → ConnectIsSafe past s
      → Fine (press_demo me cluster pending s)
  unfolding press_demo
  press_demo-Goes pending s h = elim (guard-cases me "connect.manage") [
    | inl (e, g) ↦ elim (Bool-cases (clickable false pending)) [
      | inl c ↦
          Goes-sends (ConnectIsSafe past) past (press_demo me cluster pending s) s
            (create_connector cluster demo_name demo_config) (ground arith) h
            (creates_connector (me, here, e) cluster demo_name demo_config)
      | inr c ↦
          Goes-idle (ConnectIsSafe past) past (press_demo me cluster pending s) s (ground arith) h
    ]
    | inr (e, g) ↦
        Goes-idle (ConnectIsSafe past) past (press_demo me cluster pending s) s (ground arith) h
  ]

  press_restart-Goes :
      (pending : Bool) (s : ConnectState)
      → ConnectIsSafe past s
      → Fine (press_restart me cluster pending s)
  unfolding press_restart
  press_restart-Goes pending s h = elim (Option-cases s.view_connector) [
    | inl v ↦
        Goes-idle (ConnectIsSafe past) past (press_restart me cluster pending s) s (ground arith) h
    | inr (k, v) ↦ elim (guard-cases me "connect.manage") [
      | inl (e, g) ↦ elim (Bool-cases (clickable false pending)) [
        | inl c ↦
            Goes-sends (ConnectIsSafe past) past (press_restart me cluster pending s) s
              (restart_connector cluster k.name) (ground arith) h
              (restarts_connector (me, here, e) cluster k.name)
        | inr c ↦
            Goes-idle (ConnectIsSafe past) past (press_restart me cluster pending s) s
              (ground arith) h
      ]
      | inr (e, g) ↦
          Goes-idle (ConnectIsSafe past) past (press_restart me cluster pending s) s (ground arith)
            h
    ]
  ]

  press_delete-Goes : (s : ConnectState) → ConnectIsSafe past s → Fine (press_delete me s)
  unfolding press_delete
  press_delete-Goes s h = elim (Option-cases s.view_connector) [
    | inl v ↦ Goes-idle (ConnectIsSafe past) past (press_delete me s) s (ground arith) h
    | inr (k, v) ↦ elim (guard-cases me "connect.manage") [
      | inl (e, g) ↦
          Goes-idle (ConnectIsSafe past) past (press_delete me s)
            (record s { delete_target = some k }) (ground arith)
            (record { deleting = λ d q. (me, here, e) })
      | inr (e, g) ↦ Goes-idle (ConnectIsSafe past) past (press_delete me s) s (ground arith) h
    ]
  ]

  confirm_delete-Goes :
      (pending : Bool) (s : ConnectState)
      → ConnectIsSafe past s
      → Fine (confirm_delete cluster pending s)
  unfolding confirm_delete
  confirm_delete-Goes pending s h = elim (Option-cases s.delete_target) [
    | inl e ↦
        Goes-idle (ConnectIsSafe past) past (confirm_delete cluster pending s) s (ground arith) h
    | inr (k, e) ↦ elim (Bool-cases (clickable false pending)) [
      | inl c ↦
          Goes-sends (ConnectIsSafe past) past (confirm_delete cluster pending s) s
            (delete_connector cluster k.name) (ground arith) h
            (deletes_connector (h.deleting k e) cluster k.name)
      | inr c ↦
          Goes-idle (ConnectIsSafe past) past (confirm_delete cluster pending s) s (ground arith) h
    ]
  ]

  pub connect_step-Goes :
      (e : Event me cluster) (s : ConnectState)
      → ConnectIsSafe past s
      → Fine (on_event me cluster e s)
  unfolding on_event run cancel_delete close_drawer restarted deleted seeded failed
  connect_step-Goes (pressed c a m) s h = run-Goes a.click s (menu-can c a m) h
  connect_step-Goes (row_clicked c) s h = (record { deleting = h.deleting }, tt)
  connect_step-Goes (typed text) s h = (record { deleting = h.deleting }, tt)
  connect_step-Goes (chose_state text) s h = (record { deleting = h.deleting }, tt)
  connect_step-Goes (refused message) s h = (h, tt)
  connect_step-Goes (demo_pressed pending) s h = press_demo-Goes pending s h
  connect_step-Goes (restart_pressed pending) s h = press_restart-Goes pending s h
  connect_step-Goes (confirmed pending) s h = confirm_delete-Goes pending s h
  connect_step-Goes delete_pressed s h = press_delete-Goes s h
  connect_step-Goes drawer_closed s h = (record { deleting = h.deleting }, tt)
  connect_step-Goes cancelled s h = (idle_target past _ refl, tt)
  connect_step-Goes restart_answered s h = (h, tt)
  connect_step-Goes delete_answered s h = (idle_target past _ refl, tt)
  connect_step-Goes demo_answered s h = (h, tt)

pub connect-safe_cons :
    (me : Option User) (past : Past) (s : ConnectState)
    → ConnectIsSafe past s
    → ConnectIsSafe (note me past) s
connect-safe_cons me past s h = record { deleting = λ c e. Had-cons me past _ (h.deleting c e) }

pub start-ConnectIsSafe : (past : Past) → ConnectIsSafe past start
start-ConnectIsSafe past = idle_target past start refl

abbrev pub connect_model : PageModel
connect_model = record {
  State = ConnectState;
  start = start;
  Event = λ past. Event;
  step = λ past. on_event;
  IsSafe = ConnectIsSafe;
  start_safe = start-ConnectIsSafe;
  safe_cons = connect-safe_cons;
  step_safe = λ me cluster past e s here h. connect_step-Goes me cluster past here e s h;
}
