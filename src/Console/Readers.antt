-- ===== src/Console/Readers.antt =====
-- The pages of the console that only read: the dashboard, brokers, messages, consumer groups and the audit
-- log, and the login page. What their handlers do, and that none of them sends a request to change
-- something.
use kafkaesque.Console.{PageModel}
use kafkaesque.Console.Requests.{IsJustified}
use kafkaesque.Dashboard
use kafkaesque.Pages.Brokers
use kafkaesque.Pages.Brokers.Detail as BrokersDetail
use kafkaesque.Pages.Consumers
use kafkaesque.Pages.Consumers.Detail as ConsumersDetail
use kafkaesque.Pages.Audit
use kafkaesque.Pages.Audit.Detail as AuditDetail
use kafkaesque.Pages.Messages
use kafkaesque.Pages.Messages.Detail as MessagesDetail
use kafkaesque.Pages.Messages.Behaviour
use kafkaesque.Pages.Login
use kafkaesque.Api.Types.{User, Broker, ConsumerGroup}
use kafkaesque.Ui.{Effect, sent, set_item, load, dialog, open_produce_message}
use kafkaesque.Ui.Table.{RowAction, clickable}
use kafkaesque.Auth.Guards.Laws.{guard-cases}
use kafkaesque.Prelude.Texts.{is_blank, some_text}
use kafkaesque.Prelude.{
  if◌then◌else◌, ap, arith, refl, All-of_nil, Bool-cases, Option-cases, inl, inr, [], ◌∷◌, ◌≡◌,
  ◌||◌, false, Bool, List, Memᴰ, Option, String, none, some,
}

pub data DashboardEvent : Type 0 where
  refresh_pressed : (fetching : Bool) → DashboardEvent
  refresh_ended : DashboardEvent

unfoldable pub dashboard_step : String → DashboardEvent → Bool → Bool × List Effect
dashboard_step cluster (refresh_pressed fetching) s = Dashboard.press_refresh cluster fetching s
dashboard_step cluster refresh_ended s = Dashboard.refreshed s

-- An entry of a menu comes from a row.
pub data BrokersEvent : Type 0 where
  pressed :
      (b : Broker) (a : RowAction Brokers.RowCommand)
      → Memᴰ a (Brokers.broker_actions b)
      → BrokersEvent
  refreshed : (fetching pending : Bool) → BrokersEvent
  chosen : Broker → BrokersEvent
  typed : String → BrokersEvent
  closed : BrokersEvent

unfoldable pub brokers_step :
    String → BrokersEvent → Brokers.BrokersState → Brokers.BrokersState × List Effect
brokers_step cluster (pressed b a m) s = Brokers.run cluster a.click s
brokers_step cluster (refreshed fetching pending) s =
    Brokers.press_refresh cluster fetching pending s
brokers_step cluster (chosen b) s = (BrokersDetail.select b s, [])
brokers_step cluster (typed text) s = (BrokersDetail.type_filter text s, [])
brokers_step cluster closed s = Brokers.close_drawer s

pub data ConsumersEvent : Type 0 where
  chosen : ConsumerGroup → ConsumersEvent
  typed : String → ConsumersEvent
  closed : ConsumersEvent

unfoldable pub consumers_step : ConsumersEvent → Consumers.ConsumersState → Consumers.ConsumersState
consumers_step (chosen g) s = Consumers.select g s
consumers_step (typed text) s = ConsumersDetail.type_filter text s
consumers_step closed s = Consumers.close_drawer s

pub data AuditEvent : Type 0 where
  chosen : Audit.AuditEntry → AuditEvent
  typed : String → AuditEvent
  closed : AuditEvent

unfoldable pub audit_step : AuditEvent → Audit.AuditState → Audit.AuditState
audit_step (chosen a) s = Audit.select a s
audit_step (typed text) s = AuditDetail.type_filter text s
audit_step closed s = Audit.close_drawer s

-- The texts are the active topic.
pub data MessagesEvent : Type 0 where
  happened : Behaviour.Event → MessagesEvent
  refresh_pressed : (fetching : Bool) → String → MessagesEvent
  produce_pressed topic_chosen : String → MessagesEvent

unfoldable pub messages_step :
    Option User → String → MessagesEvent → Messages.Messages → Messages.Messages × List Effect
messages_step me cluster (happened e) s = (Behaviour.on_event e s, [])
messages_step me cluster (refresh_pressed fetching topic) s =
    if fetching || is_blank topic then (s, []) else Messages.refresh cluster topic s
messages_step me cluster (produce_pressed topic) s = MessagesDetail.press_produce me topic s
messages_step me cluster (topic_chosen topic) s = MessagesDetail.choose_topic topic s

-- `mounted` is the first render; `addressed` the effect on the address.
pub data LoginEvent : Type 0 where
  mounted : (prefers_dark : Bool) → Option String → Option String → LoginEvent
  addressed toggled resolved : LoginEvent
  submitted : Option Login.AuthConfig → LoginEvent
  email_typed password_typed : String → LoginEvent
  rejected : Option String → LoginEvent

unfoldable pub login_step : LoginEvent → Login.LoginState → Login.LoginState × List Effect
login_step (mounted prefers_dark theme token) s = (Login.start prefers_dark theme token, [])
login_step addressed s = Login.take_token s
login_step toggled s = Login.toggle_theme s
login_step resolved s = Login.login_resolved s
login_step (submitted c) s = Login.press_login c s
login_step (email_typed text) s = (record s { email = text }, [])
login_step (password_typed text) s = (record s { password = text }, [])
login_step (rejected message) s = Login.login_rejected message s

pub dashboard-quiet :
    (cluster : String) (e : DashboardEvent) (s : Bool) → sent (dashboard_step cluster e s).1 ≡ []
unfolding dashboard_step Dashboard.press_refresh Dashboard.refreshed
dashboard-quiet cluster (refresh_pressed fetching) s =
    elim (Bool-cases (clickable false (s || fetching))) [ inl e ↦ rw e refl | inr e ↦ rw e refl ]
dashboard-quiet cluster refresh_ended s = refl

brokers_run-quiet :
    (cluster : String) (c : Brokers.RowCommand) (s : Brokers.BrokersState)
    → sent (Brokers.run cluster c s).1 ≡ []
unfolding Brokers.run
brokers_run-quiet cluster (Brokers.RowCommand.view b) s = refl
brokers_run-quiet cluster (Brokers.RowCommand.show_partitions id) s = refl
brokers_run-quiet cluster Brokers.RowCommand.refresh s = refl

pub brokers-quiet :
    (cluster : String) (e : BrokersEvent) (s : Brokers.BrokersState)
    → sent (brokers_step cluster e s).1 ≡ []
unfolding brokers_step Brokers.press_refresh Brokers.close_drawer
brokers-quiet cluster (pressed b a m) s = brokers_run-quiet cluster a.click s
brokers-quiet cluster (refreshed fetching pending) s =
    elim (Bool-cases (clickable false (fetching || pending))) [
      | inl e ↦ rw e refl
      | inr e ↦ rw e refl
    ]
brokers-quiet cluster (chosen b) s = refl
brokers-quiet cluster (typed text) s = refl
brokers-quiet cluster closed s = refl

produce-quiet :
    (me : Option User) (topic : String) (s : Messages.Messages)
    → sent (MessagesDetail.press_produce me topic s).1 ≡ []
unfolding MessagesDetail.press_produce
produce-quiet me topic s =
    let effects = (MessagesDetail.press_produce me topic s).1 in
    elim (guard-cases me "message.publish") [
      | inl (e, g) ↦ elim (Bool-cases (is_blank topic)) [
        | inl b ↦ let none_sent : effects ≡ [] = ground arith in ap sent none_sent
        | inr b ↦
            let asked : effects ≡ dialog (open_produce_message (some topic)) ∷ [] = ground arith in
            ap sent asked
      ]
      | inr (e, g) ↦ let none_sent : effects ≡ [] = ground arith in ap sent none_sent
    ]

pub messages-quiet :
    (me : Option User) (cluster : String) (e : MessagesEvent) (s : Messages.Messages)
    → sent (messages_step me cluster e s).1 ≡ []
unfolding messages_step Messages.refresh MessagesDetail.choose_topic
messages-quiet me cluster (happened e) s = refl
messages-quiet me cluster (refresh_pressed fetching topic) s =
    elim (Bool-cases (fetching || is_blank topic)) [ inl e ↦ rw e refl | inr e ↦ rw e refl ]
messages-quiet me cluster (produce_pressed topic) s = produce-quiet me topic s
messages-quiet me cluster (topic_chosen topic) s = refl

take_token-quiet : (s : Login.LoginState) → sent (Login.take_token s).1 ≡ []
unfolding Login.take_token
take_token-quiet s = elim (Option-cases (some_text s.search_token)) [
  | inl e ↦ let none_sent : (Login.take_token s).1 ≡ [] = ground arith in ap sent none_sent
  | inr (t, e) ↦
      let stored : (Login.take_token s).1 ≡ set_item "sf_token" t ∷ load "/" ∷ [] = ground arith in
      ap sent stored
]

press_login-quiet :
    (c : Option Login.AuthConfig) (s : Login.LoginState) → sent (Login.press_login c s).1 ≡ []
unfolding Login.press_login Login.on_submit
press_login-quiet c s = ground arith

pub login-quiet : (e : LoginEvent) (s : Login.LoginState) → sent (login_step e s).1 ≡ []
unfolding login_step Login.toggle_theme Login.keep_theme Login.login_resolved Login.login_rejected
login-quiet (mounted prefers_dark theme token) s = refl
login-quiet addressed s = take_token-quiet s
login-quiet toggled s = refl
login-quiet resolved s = refl
login-quiet (submitted c) s = press_login-quiet c s
login-quiet (email_typed text) s = refl
login-quiet (password_typed text) s = refl
login-quiet (rejected message) s = refl

-- The model of a page none of whose handlers sends a request.
abbrev pub quiet_model :
    (S E : Type 0) (start : S) (step : Option User → String → E → S → S × List Effect)
    → ((me : Option User) (cluster : String) (e : E) (s : S) → sent (step me cluster e s).1 ≡ [])
    → PageModel
quiet_model S E start step quiet = record {
  State = S;
  start = start;
  Event = λ past me cluster. E;
  step = λ past. step;
  IsSafe = λ past s. Unit;
  start_safe = λ past. tt;
  safe_cons = λ me past s h. tt;
  step_safe =
      λ me cluster past e s here h. (tt, All-of_nil (IsJustified past) (quiet me cluster e s));
}

abbrev pub dashboard_model : PageModel
dashboard_model =
    quiet_model Bool DashboardEvent Dashboard.start (λ me. dashboard_step) (λ me. dashboard-quiet)

abbrev pub brokers_model : PageModel
brokers_model =
    quiet_model Brokers.BrokersState BrokersEvent Brokers.start (λ me. brokers_step)
      (λ me. brokers-quiet)

abbrev pub consumers_model : PageModel
consumers_model =
    quiet_model Consumers.ConsumersState ConsumersEvent Consumers.start
      (λ me cluster e s. (consumers_step e s, [])) (λ me cluster e s. refl)

abbrev pub audit_model : PageModel
audit_model =
    quiet_model Audit.AuditState AuditEvent Audit.start (λ me cluster e s. (audit_step e s, []))
      (λ me cluster e s. refl)

abbrev pub messages_model : PageModel
messages_model =
    quiet_model Messages.Messages MessagesEvent Messages.start messages_step messages-quiet

abbrev pub login_model : PageModel
login_model =
    quiet_model Login.LoginState LoginEvent (Login.start false none none) (λ me cluster. login_step)
      (λ me cluster. login-quiet)
