-- ===== src/Console/Forms.antt =====
-- The pages of schemas and of the own account in the console, and the pages that send nothing.
use kafkaesque.Api.Client.{register_schema, change_password}
use kafkaesque.Prelude.Texts.{trim, is_blank}
use kafkaesque.Ui.{Effect}
use kafkaesque.Ui.Table.{clickable}
use kafkaesque.Prelude.{
  none, inr, arith, ◌||◌, not, Bool-cases, [], inl, some, Bool, List, Memᴰ, Option, String,
}
use kafkaesque.Console.{PageModel}
use kafkaesque.Console.Requests.{
  Past, Goes, Goes-idle, Goes-sends, registers_schema, changes_password,
}
use kafkaesque.Pages.Schemas
use kafkaesque.Pages.Profile
use kafkaesque.Api.Types.{User}
use kafkaesque.Auth.Guards.Laws.{guard-cases}

pub data SchemasEvent : Type 0 where
  edited : (subject text : String) → SchemasEvent
  filtered selected : String → SchemasEvent
  closed register_pressed answered : SchemasEvent
  refused : Option String → SchemasEvent

unfoldable pub schemas_step :
    Option User → String → SchemasEvent → Schemas.SchemasState → Schemas.SchemasState × List Effect
schemas_step me cluster (edited subject text) s =
    (record s { new_subject = subject; schema_text = text }, [])
schemas_step me cluster (filtered text) s = (record s { filter = text }, [])
schemas_step me cluster (selected subject) s = (Schemas.select subject s, [])
schemas_step me cluster closed s = (Schemas.close_drawer s, [])
schemas_step me cluster register_pressed s = Schemas.press_register me cluster s
schemas_step me cluster answered s = Schemas.registered s
schemas_step me cluster (refused message) s = Schemas.register_failed message s

press_register-Goes :
    (me : Option User) (cluster : String) (past : Past) (s : Schemas.SchemasState)
    → Memᴰ me past.users
    → Goes (λ _. Unit) past (Schemas.press_register me cluster s)
unfolding Schemas.press_register Schemas.register clickable
press_register-Goes me cluster past s here = elim (guard-cases me "schema.write") [
  | inl (e, g) ↦
      elim (Bool-cases (is_blank (trim s.new_subject) || is_blank (trim s.schema_text))) [
        | inl b ↦
            Goes-idle (λ _. Unit) past (Schemas.press_register me cluster s) s (ground arith) tt
        | inr b ↦
            Goes-sends (λ _. Unit) past (Schemas.press_register me cluster s) s
              (register_schema cluster (trim s.new_subject) s.schema_text (some "AVRO"))
              (ground arith) tt
              (registers_schema (me, here, e) cluster (trim s.new_subject) s.schema_text
                (ground arith))
      ]
  | inr (e, g) ↦
      Goes-idle (λ _. Unit) past (Schemas.press_register me cluster s) s (ground arith) tt
]

pub schemas_step-Goes :
    (me : Option User) (cluster : String) (past : Past) (e : SchemasEvent)
    (s : Schemas.SchemasState)
    → Memᴰ me past.users
    → Goes (λ _. Unit) past (schemas_step me cluster e s)
unfolding schemas_step Schemas.registered Schemas.register_failed
schemas_step-Goes me cluster past (edited subject text) s here = (tt, tt)
schemas_step-Goes me cluster past (filtered text) s here = (tt, tt)
schemas_step-Goes me cluster past (selected subject) s here = (tt, tt)
schemas_step-Goes me cluster past closed s here = (tt, tt)
schemas_step-Goes me cluster past register_pressed s here =
    press_register-Goes me cluster past s here
schemas_step-Goes me cluster past answered s here = (tt, tt)
schemas_step-Goes me cluster past (refused message) s here = (tt, tt)

abbrev pub schemas_model : PageModel
schemas_model = record {
  State = Schemas.SchemasState;
  start = Schemas.start;
  Event = λ past me cluster. SchemasEvent;
  step = λ past. schemas_step;
  IsSafe = λ past s. Unit;
  start_safe = λ past. tt;
  safe_cons = λ me past s h. tt;
  step_safe = λ me cluster past e s here h. schemas_step-Goes me cluster past e s here;
}

pub data ProfileEvent : Type 0 where
  typed : (current new again : String) → ProfileEvent
  change_pressed : (pending : Bool) → ProfileEvent
  changed : ProfileEvent
  failed : String → ProfileEvent

unfoldable pub profile_step :
    Option User → ProfileEvent → Profile.ProfileState → Profile.ProfileState × List Effect
profile_step me (typed current new again) s =
    (record { current_password = current; new_password = new; confirm_password = again }, [])
profile_step me (change_pressed pending) s = Profile.press_change me pending s
profile_step me changed s = Profile.changed s
profile_step me (failed message) s = Profile.failed message s

press_change-Goes :
    (me : Option User) (past : Past) (pending : Bool) (s : Profile.ProfileState)
    → Goes (λ _. Unit) past (Profile.press_change me pending s)
unfolding Profile.press_change Profile.can_submit clickable
press_change-Goes none past pending s = (tt, tt)
press_change-Goes (some u) past pending s =
    elim (Bool-cases (clickable (not (Profile.can_submit s)) pending)) [
      | inl c ↦
          Goes-sends (λ _. Unit) past (Profile.press_change (some u) pending s) s
            (change_password s.current_password s.new_password) (ground arith) tt
            (changes_password s.current_password s.new_password (ground arith))
      | inr c ↦
          Goes-idle (λ _. Unit) past (Profile.press_change (some u) pending s) s (ground arith) tt
    ]

pub profile_step-Goes :
    (me : Option User) (past : Past) (e : ProfileEvent) (s : Profile.ProfileState)
    → Goes (λ _. Unit) past (profile_step me e s)
unfolding profile_step Profile.changed Profile.failed
profile_step-Goes me past (typed current new again) s = (tt, tt)
profile_step-Goes me past (change_pressed pending) s = press_change-Goes me past pending s
profile_step-Goes me past changed s = (tt, tt)
profile_step-Goes me past (failed message) s = (tt, tt)

abbrev pub profile_model : PageModel
profile_model = record {
  State = Profile.ProfileState;
  start = Profile.start;
  Event = λ past me cluster. ProfileEvent;
  step = λ past me cluster. profile_step me;
  IsSafe = λ past s. Unit;
  start_safe = λ past. tt;
  safe_cons = λ me past s h. tt;
  step_safe = λ me cluster past e s here h. profile_step-Goes me past e s;
}
