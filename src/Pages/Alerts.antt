-- ===== src/Pages/Alerts.antt =====
-- `AlertsContent` (frontend/src/pages/AlertsPage.tsx). What `Number` makes of the threshold's text is
-- the argument `to_number`, as the JSON that is sent of it.
pub mod Laws
pub mod Detail
use kafkaesque.Prelude.Texts.{trim, is_blank}
use kafkaesque.Ui.Table.{clickable}
use kafkaesque.Api.Json.{Json}
use kafkaesque.Api.Types.{AlertRule, ConsumerGroup, User, AlertEvent}
use kafkaesque.Prelude.{
  false, max, min, ◌||◌, [], keep, not, some, ◌==◌, ◌∷◌, Bool, if◌then◌else◌, length, none, List,
  Option, String, true, ℕ,
}
use kafkaesque.Api.Client.{
  create_alert_rule, delete_alert_rule, resolve_alert_event, evaluate_alerts,
}
use kafkaesque.Ui.{invalidate, mutate, toast, Effect, success, error}
use kafkaesque.Auth.Guards.{permission_guard, any_of, children, fallback}

-- `groups.reduce(…, 0)`
largest_lag : ℕ → List ConsumerGroup → ℕ
largest_lag m [] = m
largest_lag m (g ∷ gs) = largest_lag (max m g.max_lag) gs

unfoldable pub max_lag_of : List ConsumerGroup → ℕ
unfolding largest_lag
max_lag_of gs = largest_lag 0 gs

lowest : ℕ → List AlertRule → ℕ
lowest m [] = m
lowest m (r ∷ rs) = lowest (min m r.threshold) rs

unfoldable pub lowest_threshold : List AlertRule → Option ℕ
unfolding lowest
lowest_threshold [] = none
lowest_threshold (r ∷ rs) = some (lowest r.threshold rs)

unfoldable pub is_active : AlertEvent → Bool
is_active e = e.status == "ACTIVE"

unfoldable pub active_count : List AlertEvent → ℕ
active_count es = length (keep is_active es)

-- The state; `timer` is the interval that runs, with what `evaluate.isPending` was in the render whose
-- effect set it: its callback reads that render's value.
pub record AlertsState : Type 0 where
  pub name : String
  pub rule_type : String
  pub threshold : String
  pub live : Bool
  pub timer : Option Bool

abbrev pub start : AlertsState
start = record { name = ""; rule_type = "consumer_lag"; threshold = "5"; live = true; timer = none }

-- The effect on `[live, clusterId]`, in a render in which `evaluate.isPending` is `pending`.
unfoldable pub follow_live : String → Bool → AlertsState → AlertsState
follow_live cluster pending s = record s {
  timer = if not s.live || is_blank cluster then none else some pending;
}

-- The button of the header, with the effect of the render that follows.
unfoldable pub toggle_live : String → Bool → AlertsState → AlertsState
toggle_live cluster pending s = follow_live cluster pending (record s { live = not s.live })

-- The timer fires.
unfoldable pub tick : String → AlertsState → AlertsState × List Effect
tick cluster s = elim s.timer [
  | none ↦ (s, [])
  | some pending ↦ if not pending then (s, mutate (evaluate_alerts cluster) ∷ []) else (s, [])
]

-- How often the events are read again, in milliseconds; `none` is never.
unfoldable pub events_interval : AlertsState → Option ℕ
events_interval s = if s.live then some 5000 else none

unfoldable pub consumers_interval : AlertsState → ℕ
consumers_interval s = if s.live then 5000 else 15000

unfoldable pub press_evaluate :
    Option User → String → Bool → AlertsState → AlertsState × List Effect
press_evaluate me cluster pending s = elim (permission_guard me "alert.manage" none any_of) [
  | children ↦
      if clickable false pending then (s, mutate (evaluate_alerts cluster) ∷ []) else (s, [])
  | fallback ↦ (s, [])
]

module _ (to_number : String → Json) where
  -- The button to add a rule.
  unfoldable pub press_create :
      Option User → String → Bool → AlertsState → AlertsState × List Effect
  press_create me cluster pending s = elim (permission_guard me "alert.manage" none any_of) [
    | children ↦
        if clickable (is_blank (trim s.name)) pending
        then (
          s,
          mutate (create_alert_rule cluster s.name s.rule_type (to_number s.threshold) (some true))
              ∷ [],
        )
        else (s, [])
    | fallback ↦ (s, [])
  ]

unfoldable pub press_delete :
    Option User → String → AlertRule → AlertsState → AlertsState × List Effect
press_delete me cluster r s = elim (permission_guard me "alert.manage" none any_of) [
  | children ↦ (s, mutate (delete_alert_rule cluster r.id) ∷ [])
  | fallback ↦ (s, [])
]

-- The button of an event is there while the event is active.
unfoldable pub press_resolve : AlertEvent → AlertsState → AlertsState × List Effect
press_resolve e s = if is_active e then (s, mutate (resolve_alert_event e.id) ∷ []) else (s, [])

unfoldable pub created : String → AlertsState → AlertsState × List Effect
created cluster s = (
  record s { name = "" },
  toast success "Alert rule created" ∷ invalidate ("alert-rules" ∷ cluster ∷ []) ∷ [],
)

unfoldable pub deleted : String → AlertsState → AlertsState × List Effect
deleted cluster s = (s, invalidate ("alert-rules" ∷ cluster ∷ []) ∷ [])

-- A resolved event, and a check that has run.
unfoldable pub events_changed : String → AlertsState → AlertsState × List Effect
events_changed cluster s = (s, invalidate ("alert-events" ∷ cluster ∷ []) ∷ [])

-- `create` and `evaluate` report a failure; `remove` and `resolve` have no `onError`.
unfoldable pub failed : String → AlertsState → AlertsState × List Effect
failed message s = (s, toast error message ∷ [])
