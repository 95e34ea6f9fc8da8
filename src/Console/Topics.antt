-- ===== src/Console/Topics.antt =====
-- The page of topics in the console.
use mathlib.Core.Path.{subst}
use kafkaesque.Ui.{
  refetch, log_out, on_close, later, load, log_in, remove_item, set_item, invalidate,
  select_cluster, navigate, dialog, toast, mutate, sent, Effect,
}
use kafkaesque.Prelude.{refl, [], sym, ◌∷◌, All, List, String}
use kafkaesque.Console.{PageModel}
use kafkaesque.Console.Requests.{Past, IsJustified, Goes, deletes_topic}
use kafkaesque.Pages.Topics.{start, TopicsState}
use kafkaesque.Pages.Topics.Laws.{
  Deletes, Event, on_event, TargetIsDeletable, on_event-TargetIsDeletable, on_event-Deletes,
}

-- What the page asks to delete, and deletes, is no internal topic; no permission is asked for.
sent-IsJustified :
    (cluster : String) (past : Past) (es : List Effect)
    → All (Deletes past.topics cluster) es
    → All (IsJustified past) (sent es)
sent-IsJustified cluster past [] h = tt
sent-IsJustified cluster past (mutate r ∷ es) h =
    let (name, e, d) = h.0 r refl in
    (
      subst (IsJustified past) (sym e) (deletes_topic cluster name d),
      sent-IsJustified cluster past es h.1,
    )
sent-IsJustified cluster past (toast kind message ∷ es) h = sent-IsJustified cluster past es h.1
sent-IsJustified cluster past (dialog call ∷ es) h = sent-IsJustified cluster past es h.1
sent-IsJustified cluster past (navigate to ∷ es) h = sent-IsJustified cluster past es h.1
sent-IsJustified cluster past (select_cluster id ∷ es) h = sent-IsJustified cluster past es h.1
sent-IsJustified cluster past (on_close ∷ es) h = sent-IsJustified cluster past es h.1
sent-IsJustified cluster past (log_out ∷ es) h = sent-IsJustified cluster past es h.1
sent-IsJustified cluster past (invalidate key ∷ es) h = sent-IsJustified cluster past es h.1
sent-IsJustified cluster past (set_item name value ∷ es) h = sent-IsJustified cluster past es h.1
sent-IsJustified cluster past (remove_item name ∷ es) h = sent-IsJustified cluster past es h.1
sent-IsJustified cluster past (log_in email password ∷ es) h = sent-IsJustified cluster past es h.1
sent-IsJustified cluster past (refetch ∷ es) h = sent-IsJustified cluster past es h.1
sent-IsJustified cluster past (load to ∷ es) h = sent-IsJustified cluster past es h.1
sent-IsJustified cluster past (later n ∷ es) h = sent-IsJustified cluster past es h.1

pub topics_step-Goes :
    (cluster : String) (past : Past) (e : Event past.topics) (s : TopicsState)
    → TargetIsDeletable past.topics s
    → Goes (TargetIsDeletable past.topics) past (on_event past.topics cluster e s)
topics_step-Goes cluster past e s h = (
  on_event-TargetIsDeletable past.topics cluster e s h,
  sent-IsJustified cluster past (on_event past.topics cluster e s).1
      (on_event-Deletes past.topics cluster e s h),
)

pub start-TargetIsDeletable : (past : Past) → TargetIsDeletable past.topics start
unfolding start
start-TargetIsDeletable past = λ n q. cc

abbrev pub topics_model : PageModel
topics_model = record {
  State = TopicsState;
  start = start;
  Event = λ past me cluster. Event past.topics;
  step = λ past me cluster. on_event past.topics cluster;
  IsSafe = λ past. TargetIsDeletable past.topics;
  start_safe = start-TargetIsDeletable;
  safe_cons = λ me past s h. h;
  step_safe = λ me cluster past e s m h. topics_step-Goes cluster past e s h;
}
