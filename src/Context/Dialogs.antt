-- ===== src/Context/Dialogs.antt =====
-- `DialogProvider` (frontend/src/context/DialogContext.tsx).
use kafkaesque.Ui.{
  open_command_palette, close_command_palette, open_create_topic, close_create_topic,
  open_add_cluster, close_add_cluster, open_produce_message, close_produce_message,
  open_produce_message, DialogCall,
}
use kafkaesque.Prelude.{String, Option, none, true, Bool, false}
pub mod Laws

pub record DialogState : Type 0 where
  pub command_palette : Bool
  pub create_topic : Bool
  pub add_cluster : Bool
  pub produce_message : Bool
  pub produce_topic : Option String

unfoldable pub default_state : DialogState
default_state = record {
  command_palette = false;
  create_topic = false;
  add_cluster = false;
  produce_message = false;
  produce_topic = none;
}

-- Each operation patches its own fields.
unfoldable pub run : DialogCall → DialogState → DialogState
run open_command_palette d = record d { command_palette = true }
run close_command_palette d = record d { command_palette = false }
run open_create_topic d = record d { create_topic = true }
run close_create_topic d = record d { create_topic = false }
run open_add_cluster d = record d { add_cluster = true }
run close_add_cluster d = record d { add_cluster = false }
run (open_produce_message topic) d = record d { produce_message = true; produce_topic = topic }
run close_produce_message d = record d { produce_message = false; produce_topic = none }
