-- ===== src/Console/Alerts.antt =====
-- The page of alerts in the console.
use kafkaesque.Prelude.Texts.{trim, is_blank}
use kafkaesque.Ui.Table.{clickable}
use kafkaesque.Api.Client.{
  create_alert_rule, evaluate_alerts, resolve_alert_event, delete_alert_rule,
}
use kafkaesque.Ui.{Effect}
use kafkaesque.Console.{PageModel}
use kafkaesque.Console.Requests.{
  Past, Goes, Goes-idle, Goes-sends, creates_rule, deletes_rule, evaluates, resolves,
}
use kafkaesque.Prelude.{
  some, true, false, [], arith, Bool-cases, Option-cases, Bool, List, Memᴰ, Option, String, inl,
  inr,
}
use kafkaesque.Pages.Alerts.{
  is_active, follow_live, toggle_live, tick, press_evaluate, press_create, press_delete,
  press_resolve, created, deleted, events_changed, failed, start, AlertsState,
}
use kafkaesque.Api.Types.{AlertRule, AlertEvent, User}
use kafkaesque.Api.Json.{Json}
use kafkaesque.Auth.Guards.Laws.{guard-cases}

-- The Boolean is `evaluate.isPending`, or `isPending` of the mutation that the button starts; `to_number`
-- is `Number`. The effect on `[live, clusterId]` runs after a render.
pub data AlertsEvent : Type 0 where
  edited : (name kind threshold : String) → AlertsEvent
  live_toggled rendered evaluate_pressed : (pending : Bool) → AlertsEvent
  ticked : AlertsEvent
  create_pressed : (to_number : String → Json) (pending : Bool) → AlertsEvent
  delete_pressed : AlertRule → AlertsEvent
  resolve_pressed : AlertEvent → AlertsEvent
  create_answered delete_answered events_answered : AlertsEvent
  refused : String → AlertsEvent

unfoldable pub alerts_step :
    Option User → String → AlertsEvent → AlertsState → AlertsState × List Effect
alerts_step me cluster (edited name kind threshold) s =
    (record s { name = name; rule_type = kind; threshold = threshold }, [])
alerts_step me cluster (live_toggled pending) s = (toggle_live cluster pending s, [])
alerts_step me cluster (rendered pending) s = (follow_live cluster pending s, [])
alerts_step me cluster (evaluate_pressed pending) s = press_evaluate me cluster pending s
alerts_step me cluster ticked s = tick cluster s
alerts_step me cluster (create_pressed to_number pending) s =
    press_create to_number me cluster pending s
alerts_step me cluster (delete_pressed r) s = press_delete me cluster r s
alerts_step me cluster (resolve_pressed e) s = press_resolve e s
alerts_step me cluster create_answered s = created cluster s
alerts_step me cluster delete_answered s = deleted cluster s
alerts_step me cluster events_answered s = events_changed cluster s
alerts_step me cluster (refused message) s = failed message s

module _ (me : Option User) (cluster : String) (past : Past) (here : Memᴰ me past.users) where
  abbrev Fine : AlertsState × List Effect → Type 0
  Fine = Goes (λ s. Unit) past

  tick-Goes : (s : AlertsState) → Fine (tick cluster s)
  unfolding tick
  tick-Goes s = elim (Option-cases s.timer) [
    | inl e ↦ Goes-idle (λ _. Unit) past (tick cluster s) s (ground arith) tt
    | inr (false, e) ↦
        Goes-sends (λ _. Unit) past (tick cluster s) s (evaluate_alerts cluster) (ground arith) tt
          (evaluates cluster)
    | inr (true, e) ↦ Goes-idle (λ _. Unit) past (tick cluster s) s (ground arith) tt
  ]

  press_evaluate-Goes :
      (pending : Bool) (s : AlertsState) → Fine (press_evaluate me cluster pending s)
  unfolding press_evaluate
  press_evaluate-Goes pending s = elim (guard-cases me "alert.manage") [
    | inl (e, g) ↦ elim (Bool-cases (clickable false pending)) [
      | inl c ↦
          Goes-sends (λ _. Unit) past (press_evaluate me cluster pending s) s
            (evaluate_alerts cluster) (ground arith) tt (evaluates cluster)
      | inr c ↦ Goes-idle (λ _. Unit) past (press_evaluate me cluster pending s) s (ground arith) tt
    ]
    | inr (e, g) ↦
        Goes-idle (λ _. Unit) past (press_evaluate me cluster pending s) s (ground arith) tt
  ]

  press_create-Goes :
      (to_number : String → Json) (pending : Bool) (s : AlertsState)
      → Fine (press_create to_number me cluster pending s)
  unfolding press_create
  press_create-Goes to_number pending s = elim (guard-cases me "alert.manage") [
    | inl (e, g) ↦ elim (Bool-cases (clickable (is_blank (trim s.name)) pending)) [
      | inl c ↦
          Goes-sends (λ _. Unit) past (press_create to_number me cluster pending s) s
            (create_alert_rule cluster s.name s.rule_type (to_number s.threshold) (some true))
            (ground arith) tt
            (creates_rule (me, here, e) cluster s.name s.rule_type (to_number s.threshold))
      | inr c ↦
          Goes-idle (λ _. Unit) past (press_create to_number me cluster pending s) s (ground arith)
            tt
    ]
    | inr (e, g) ↦
        Goes-idle (λ _. Unit) past (press_create to_number me cluster pending s) s (ground arith) tt
  ]

  press_delete-Goes : (r : AlertRule) (s : AlertsState) → Fine (press_delete me cluster r s)
  unfolding press_delete
  press_delete-Goes r s = elim (guard-cases me "alert.manage") [
    | inl (e, g) ↦
        Goes-sends (λ _. Unit) past (press_delete me cluster r s) s (delete_alert_rule cluster r.id)
          (ground arith) tt (deletes_rule (me, here, e) cluster r.id)
    | inr (e, g) ↦ Goes-idle (λ _. Unit) past (press_delete me cluster r s) s (ground arith) tt
  ]

  press_resolve-Goes : (v : AlertEvent) (s : AlertsState) → Fine (press_resolve v s)
  unfolding press_resolve
  press_resolve-Goes v s = elim (Bool-cases (is_active v)) [
    | inl e ↦
        Goes-sends (λ _. Unit) past (press_resolve v s) s (resolve_alert_event v.id) (ground arith)
          tt (resolves v.id)
    | inr e ↦ Goes-idle (λ _. Unit) past (press_resolve v s) s (ground arith) tt
  ]

  pub alerts_step-Goes : (e : AlertsEvent) (s : AlertsState) → Fine (alerts_step me cluster e s)
  unfolding alerts_step created deleted events_changed failed
  alerts_step-Goes (edited name kind threshold) s = (tt, tt)
  alerts_step-Goes (live_toggled pending) s = (tt, tt)
  alerts_step-Goes (rendered pending) s = (tt, tt)
  alerts_step-Goes (evaluate_pressed pending) s = press_evaluate-Goes pending s
  alerts_step-Goes ticked s = tick-Goes s
  alerts_step-Goes (create_pressed to_number pending) s = press_create-Goes to_number pending s
  alerts_step-Goes (delete_pressed r) s = press_delete-Goes r s
  alerts_step-Goes (resolve_pressed v) s = press_resolve-Goes v s
  alerts_step-Goes create_answered s = (tt, tt)
  alerts_step-Goes delete_answered s = (tt, tt)
  alerts_step-Goes events_answered s = (tt, tt)
  alerts_step-Goes (refused message) s = (tt, tt)

abbrev pub alerts_model : PageModel
alerts_model = record {
  State = AlertsState;
  start = start;
  Event = λ past me cluster. AlertsEvent;
  step = λ past. alerts_step;
  IsSafe = λ past s. Unit;
  start_safe = λ past. tt;
  safe_cons = λ me past s h. tt;
  step_safe = λ me cluster past e s here h. alerts_step-Goes me cluster past here e s;
}
