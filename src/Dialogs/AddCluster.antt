-- ===== src/Dialogs/AddCluster.antt =====
-- `AddClusterDialog` (frontend/src/components/dialogs/AddClusterDialog.tsx).
use kafkaesque.Prelude.Decimal.{to_text}
use kafkaesque.Api.Client.{create_cluster, test_connection}
use kafkaesque.Ui.Table.{clickable}
use kafkaesque.Ui.{close_add_cluster, success, dialog, error, mutate, invalidate, toast, Effect}
use kafkaesque.Prelude.Texts.{some_text, trim, is_blank}
use kafkaesque.Api.Transport.{Request}
use kafkaesque.Api.Types.{ClusterCreateBody, TestConnectionResult}
use Prim.Native.String.{◌++◌ as ◌<>◌}
use kafkaesque.Prelude.{
  or_else, ◌==◌, ◌∷◌, [], ◌&&◌, ◌||◌, is_some, List, if◌then◌else◌, not, ℕ, Bool, Option, String,
  none, some, false,
}

pub record TestResult : Type 0 where
  pub connected : Bool
  pub failure : Option String
  pub broker_count : Option ℕ
  pub topic_count : Option ℕ
  pub kafka_version : Option String

pub record Errors : Type 0 where
  pub name : Option String
  pub bootstrap : Option String

abbrev pub no_errors : Errors
no_errors = record { name = none; bootstrap = none }

pub record AddCluster : Type 0 where
  pub form : ClusterCreateBody
  pub test_result : Option TestResult
  pub errors : Errors

unfoldable pub start : AddCluster
start = record {
  form = record {
    name = "";
    bootstrap_servers = "kafka:9092";
    environment = "DEVELOPMENT";
    tls = some false;
    sasl_mechanism = some "";
    sasl_username = some "";
    sasl_password = some "";
    kafka_version = none;
    schema_registry_url = some "";
    connect_url = some "";
  };
  test_result = none;
  errors = no_errors;
}

unfoldable pub errors_of : ClusterCreateBody → Errors
errors_of f = record {
  name = if is_blank (trim f.name) then some "Cluster name is required" else none;
  bootstrap =
      if is_blank (trim f.bootstrap_servers) then some "Bootstrap servers are required" else none;
}

unfoldable pub is_valid : Errors → Bool
is_valid e = not (is_some e.name) && not (is_some e.bootstrap)

-- The two buttons: `validate() && mutation.mutate()`, disabled while their own mutation is pending.
submit : (ClusterCreateBody → Request) → Bool → AddCluster → AddCluster × List Effect
submit request pending s =
    let e = errors_of s.form in
    let t = record s { errors = e } in
    if not (clickable false pending)
    then (s, [])
    else if is_valid e
    then (t, mutate (request s.form) ∷ [])
    else (t, [])

unfoldable pub press_test : Bool → AddCluster → AddCluster × List Effect
unfolding submit
press_test pending s = submit test_connection pending s

unfoldable pub press_save : Bool → AddCluster → AddCluster × List Effect
unfolding submit
press_save pending s = submit create_cluster pending s

unfoldable pub tested : TestConnectionResult → AddCluster → AddCluster × List Effect
tested r s = (
  record s {
    test_result = some (record {
      connected = r.connected;
      failure = r.error;
      broker_count = r.broker_count;
      topic_count = r.topic_count;
      kafka_version = r.kafka_version;
    });
  },
  [],
)

unfoldable pub test_failed : String → AddCluster → AddCluster × List Effect
test_failed message s = (
  record s {
    test_result = some (record {
      connected = false;
      failure = some message;
      broker_count = none;
      topic_count = none;
      kafka_version = none;
    });
  },
  [],
)

-- `handleClose` as a render made it in which `save.isPending` and `test.isPending` were so.
unfoldable pub handle_close : Bool → Bool → AddCluster → AddCluster × List Effect
handle_close saving testing s =
    if saving || testing
    then (s, [])
    else (record s { test_result = none; errors = no_errors }, dialog close_add_cluster ∷ [])

-- `save.onSuccess`, which calls the `handleClose` of its own render.
unfoldable pub saved : Bool → Bool → AddCluster → AddCluster × List Effect
saved saving testing s =
    let (t, es) = handle_close saving testing s in
    (
      t,
      invalidate ("clusters" ∷ [])
          ∷ toast success ("Cluster \"" <> (s.form.name <> "\" saved"))
          ∷ es,
    )

unfoldable pub save_failed : String → AddCluster → AddCluster × List Effect
save_failed message s = (s, toast error message ∷ [])

-- `set`: the form is patched, and a test's result is about another form.
unfoldable pub set : (ClusterCreateBody → ClusterCreateBody) → AddCluster → AddCluster
set patch s = record s { form = patch s.form; test_result = none }

-- The two lists of the security section, and the fields of the credentials, which are there with a
-- mechanism.
unfoldable pub protocol : ClusterCreateBody → String
protocol f = if or_else f.tls false then "SSL" else "PLAINTEXT"

unfoldable pub choose_protocol : String → ClusterCreateBody → ClusterCreateBody
choose_protocol value f = record f { tls = some (not (value == "PLAINTEXT")) }

unfoldable pub choose_mechanism : String → ClusterCreateBody → ClusterCreateBody
choose_mechanism value f = record f { sasl_mechanism = some value }

unfoldable pub has_credentials : ClusterCreateBody → Bool
has_credentials f = is_some (some_text f.sasl_mechanism)

-- The buttons of the environment: `env.charAt(0) + env.slice(1).toLowerCase()` of the three.
unfoldable pub environments : List (String × String)
environments =
    ("DEVELOPMENT", "Development") ∷ ("STAGING", "Staging") ∷ ("PRODUCTION", "Production") ∷ []

-- What the dialog says of a test.
unfoldable pub test_note : TestResult → String × String
test_note r =
    if r.connected
    then (
      "Connection successful",
      "Brokers: "
          <> (elim r.broker_count [ none ↦ "—" | some n ↦ to_text n ]
              <> elim r.topic_count [ none ↦ "" | some n ↦ " · Topics: " <> to_text n ]),
    )
    else ("Connection failed", or_else r.failure "")
