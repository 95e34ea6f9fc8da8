-- ===== src/Dialogs/Produce.antt =====
-- `ProduceMessageDialog` (frontend/src/components/dialogs/ProduceMessageDialog.tsx). Whether
use kafkaesque.Prelude.Decimal.{to_text}
use kafkaesque.Ui.Table.{clickable}
use kafkaesque.Prelude.Texts.{parse_int, is_blank}
use kafkaesque.Ui.{close_produce_message, success, dialog, error, invalidate, mutate, toast, Effect}
use kafkaesque.Api.Json.{object, str, Json}
use kafkaesque.Prelude.{
  ◌++◌, ◌==◌, ◌||◌, [], some, ◌∷◌, List, Option, if◌then◌else◌, Bool, String, none, ℕ,
}
use Prim.Native.String.{◌++◌ as ◌<>◌}
use kafkaesque.Api.Client.{publish}
use kafkaesque.Dialogs.CreateTopic.{json_number}

-- `JSON.parse` takes a text without throwing is the argument `parses`.
pub record PublishResult : Type 0 where
  pub partition : ℕ
  pub offset : ℕ
  pub timestamp : Option String

pub record Produce : Type 0 where
  pub topic : String
  pub partition : String
  pub key : String
  pub value : String
  pub json_error : String
  pub published : Option PublishResult

unfoldable pub start : Produce
start = record {
  topic = "";
  partition = "auto";
  key = "";
  value = "{\n  \"event\": \"transaction.created\"\n}";
  json_error = "";
  published = none;
}

-- The effect on `[dialogs.produceMessage, dialogs.produceTopic]`.
unfoldable pub opened : Bool → String → Produce → Produce
opened shown topic s =
    if shown then record s { topic = topic; published = none; json_error = "" } else s

-- The partition is sent unless it is left to the broker.
unfoldable pub body : Produce → Json
body s =
    let rest = ("reason", str "UI publish") ∷ [] in
    let base = ("key", str s.key) ∷ ("value", str s.value) ∷ rest in
    if s.partition == "auto"
    then object base
    else object (base ++ ("partition", json_number (parse_int s.partition)) ∷ [])

module _ (parses : String → Bool) where
  -- `onSubmit`, with `validate`.
  unfoldable pub on_submit : String → Produce → Produce × List Effect
  on_submit cluster s =
      if is_blank s.topic
      then (s, [])
      else if parses s.value
      then (record s { json_error = "" }, mutate (publish cluster s.topic (body s)) ∷ [])
      else (record s { json_error = "Value must be valid JSON" }, [])

  -- The button: disabled without a cluster or a topic, and while pending.
  unfoldable pub press : String → Bool → Produce → Produce × List Effect
  press cluster pending s =
      if clickable (is_blank cluster || is_blank s.topic) pending
      then on_submit cluster s
      else (s, [])

unfoldable pub published_with : String → PublishResult → Produce → Produce × List Effect
published_with cluster r s = (
  record s { published = some r },
  invalidate ("messages" ∷ cluster ∷ s.topic ∷ [])
      ∷ toast success
          ("Published to partition " <> (to_text r.partition <> (" offset " <> to_text r.offset)))
      ∷ [],
)

unfoldable pub failed : String → Produce → Produce × List Effect
failed message s = (s, toast error message ∷ [])

unfoldable pub handle_close : Bool → Produce → Produce × List Effect
handle_close pending s =
    if pending then (s, []) else (record s { published = none }, dialog close_produce_message ∷ [])
