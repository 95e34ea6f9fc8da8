-- ===== src/Context/Dialogs/Laws.antt =====
-- What the operations of `DialogProvider` do to one another.
use mathlib.Core.Logic.{ite}
use kafkaesque.Prelude.{true, [], refl, none, false, Bool, String, arith, ◌∷◌, ◌≡◌, List, Option}
use kafkaesque.Context.Dialogs.{DialogState, default_state, run}
use kafkaesque.Ui.{
  DialogCall, open_command_palette, close_command_palette, open_create_topic, close_create_topic,
  open_add_cluster, close_add_cluster, open_produce_message, close_produce_message,
}

-- The dialogs.
pub data Which : Type 0 where
  command_palette create_topic add_cluster produce_message : Which

abbrev pub is_open : Which → DialogState → Bool
is_open command_palette d = d.command_palette
is_open create_topic d = d.create_topic
is_open add_cluster d = d.add_cluster
is_open produce_message d = d.produce_message

abbrev pub opening : Option String → Which → DialogCall
opening topic command_palette = open_command_palette
opening topic create_topic = open_create_topic
opening topic add_cluster = open_add_cluster
opening topic produce_message = open_produce_message topic

abbrev pub closing : Which → DialogCall
closing command_palette = close_command_palette
closing create_topic = close_create_topic
closing add_cluster = close_add_cluster
closing produce_message = close_produce_message

pub Which-discrete : Discrete Which
Which-discrete = hlevel

-- The topic of the produce dialog is there only while the dialog is open.
abbrev pub IsTidy : DialogState → Type 0
IsTidy d = d.produce_message ≡ false → d.produce_topic ≡ none

run-IsTidy : (c : DialogCall) (d : DialogState) → IsTidy d → IsTidy (run c d)
unfolding run
run-IsTidy open_command_palette d h = h
run-IsTidy close_command_palette d h = h
run-IsTidy open_create_topic d h = h
run-IsTidy close_create_topic d h = h
run-IsTidy open_add_cluster d h = h
run-IsTidy close_add_cluster d h = h
run-IsTidy (open_produce_message topic) d h = λ e. absurd (ground arith)
run-IsTidy close_produce_message d h = λ e. refl

unfoldable pub run_all : List DialogCall → DialogState → DialogState
run_all [] d = d
run_all (c ∷ cs) d = run_all cs (run c d)

run_all-IsTidy : (cs : List DialogCall) (d : DialogState) → IsTidy d → IsTidy (run_all cs d)
unfolding run_all
run_all-IsTidy [] d h = h
run_all-IsTidy (c ∷ cs) d h = run_all-IsTidy cs (run c d) (run-IsTidy c d h)

-- After any operations, a closed produce dialog has no topic left from an earlier opening.
pub run_all-default : (cs : List DialogCall) → IsTidy (run_all cs default_state)
unfolding default_state
run_all-default cs = run_all-IsTidy cs default_state (λ e. refl)

-- Opening and closing a dialog set it, and leave every other dialog as it was.
run_frame :
    (topic : Option String) (w v : Which) (d : DialogState)
    → (is_open v (run (opening topic w) d) ≡ (ite (Which-discrete v w) true (is_open v d)))
      × (is_open v (run (closing w) d) ≡ (ite (Which-discrete v w) false (is_open v d)))
unfolding run Which-discrete
run_frame topic command_palette v d = ground arith
run_frame topic create_topic v d = ground arith
run_frame topic add_cluster v d = ground arith
run_frame topic produce_message v d = ground arith
