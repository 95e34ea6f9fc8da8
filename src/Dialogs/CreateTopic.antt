-- ===== src/Dialogs/CreateTopic.antt =====
-- `CreateTopicDialog` (frontend/src/components/dialogs/CreateTopicDialog.tsx).
use kafkaesque.Ui.Table.{clickable}
use kafkaesque.Api.Client.{create_topic}
use Prim.Native.Char.{code}
use kafkaesque.Ui.{
  later, success, close_create_topic, error, invalidate, dialog, mutate, toast, Effect,
}
use kafkaesque.Api.Json.{minus, num, str, null, object, Json}
use Prim.Native.String.{◌++◌ as ◌<>◌}
use kafkaesque.Prelude.{
  eqb, ltb, ◌||◌, ◌∷◌, [], is_some, some, ◌&&◌, if◌then◌else◌, leb, not, true, Bool, List, Option,
  String, none, ℕ,
}
use kafkaesque.Prelude.Texts.{is_blank, parse_int, trim, ℤ, pos, negsuc}

pub record Errors : Type 0 where
  pub name : Option String
  pub partitions : Option String
  pub rf : Option String

abbrev pub no_errors : Errors
no_errors = record { name = none; partitions = none; rf = none }

pub record CreateTopic : Type 0 where
  pub name : String
  pub partitions : String
  pub rf : String
  pub errors : Errors
  pub success : String

unfoldable pub start : CreateTopic
start = record { name = ""; partitions = "3"; rf = "1"; errors = no_errors; success = "" }

-- The class of /^[a-zA-Z0-9._-]+$/.
abbrev pub is_name_char : ℕ → Bool
is_name_char n =
    (leb b'a' n && leb n b'z')
    || (leb b'A' n && leb n b'Z')
    || (leb b'0' n && leb n b'9')
    || eqb n b'.'
    || eqb n b'_'
    || eqb n b'-'

unfoldable pub all_name_chars : String → Bool
all_name_chars String.[] = true
all_name_chars (String.◌∷◌ c s) = is_name_char (code c) && all_name_chars s

unfoldable pub matches_name : String → Bool
matches_name s = not (is_blank s) && all_name_chars s

unfoldable pub name_error : String → Option String
name_error name =
    if is_blank (trim name)
    then some "Topic name is required"
    else if not (matches_name (trim name))
    then some "Invalid topic name characters"
    else none

-- `isNaN(p) || p < 1`
unfoldable pub below_one : Option ℤ → Bool
below_one none = true
below_one (some (negsuc n)) = true
below_one (some (pos n)) = ltb n 1

unfoldable pub count_error : String → Option String
count_error text = if below_one (parse_int text) then some "Must be at least 1" else none

unfoldable pub errors_of : CreateTopic → Errors
errors_of s = record {
  name = name_error s.name;
  partitions = count_error s.partitions;
  rf = count_error s.rf;
}

unfoldable pub is_valid : Errors → Bool
is_valid e = not (is_some e.name) && not (is_some e.partitions) && not (is_some e.rf)

-- A number as `JSON.stringify` prints it; NaN is printed as null.
abbrev pub json_number : Option ℤ → Json
json_number none = null
json_number (some (pos n)) = num n
json_number (some (negsuc n)) = minus n

unfoldable pub body : CreateTopic → Json
body s = object (
    ("name", str (trim s.name))
    ∷ ("partitions", json_number (parse_int s.partitions))
    ∷ ("replication_factor", json_number (parse_int s.rf))
    ∷ [])

-- `onSubmit`, with `validate`.
unfoldable pub on_submit : String → CreateTopic → CreateTopic × List Effect
on_submit cluster s =
    let e = errors_of s in
    let t = record s { errors = e } in
    if is_valid e then (t, mutate (create_topic cluster (body s)) ∷ []) else (t, [])

-- The button: disabled while pending, after a success, and without a cluster.
unfoldable pub press : String → Bool → CreateTopic → CreateTopic × List Effect
press cluster pending s =
    if clickable (not (is_blank s.success) || is_blank cluster) pending
    then on_submit cluster s
    else (s, [])

unfoldable pub created : String → CreateTopic → CreateTopic × List Effect
created cluster s = (
  record s { success = trim s.name },
  invalidate ("topics" ∷ cluster ∷ [])
      ∷ toast success ("Topic \"" <> (trim s.name <> "\" created"))
      ∷ later 1200
      ∷ [],
)

-- The callback of the timer.
unfoldable pub timed_out : CreateTopic → CreateTopic × List Effect
timed_out s = (record s { name = ""; success = "" }, dialog close_create_topic ∷ [])

unfoldable pub failed : String → CreateTopic → CreateTopic × List Effect
failed message s = (s, toast error message ∷ [])

unfoldable pub handle_close : Bool → CreateTopic → CreateTopic × List Effect
handle_close pending s =
    if pending
    then (s, [])
    else (record s { errors = no_errors; success = "" }, dialog close_create_topic ∷ [])
