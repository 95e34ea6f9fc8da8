-- ===== src/Console/Shell.antt =====
-- The dialogs that the layout always has: what their buttons send.
use kafkaesque.Prelude.Texts.{is_blank}
use kafkaesque.Ui.Table.{clickable}
use kafkaesque.Prelude.{arith, ◌||◌, false, All-of_one, not, Bool-cases, inr, true, All-of_nil}
use kafkaesque.Api.Client.{create_cluster, publish, test_connection}
use kafkaesque.Dialogs.Forms.{press-create_topic}
use kafkaesque.Console.Requests.{
  publishes, saves_cluster, tests_connection, creates_topic, IsJustified, Past,
}
use kafkaesque.Prelude.{◌∷◌, inl, ◌⊎◌, [], All, ◌≡◌, Bool, List, String}
use kafkaesque.Ui.{sent, Effect}
use kafkaesque.Dialogs.CreateTopic
use kafkaesque.Dialogs.AddCluster
use kafkaesque.Dialogs.Produce

-- A form is in whatever state the user has brought it to; the Boolean is `isPending` of its mutation, and
-- `parses` says which texts `JSON.parse` takes.
pub data ShellEvent : Type 0 where
  topic_form : (pending : Bool) → CreateTopic.CreateTopic → ShellEvent
  cluster_test cluster_save : (pending : Bool) → AddCluster.AddCluster → ShellEvent
  message_form : (parses : String → Bool) (pending : Bool) → Produce.Produce → ShellEvent

unfoldable pub shell_effects : String → ShellEvent → List Effect
shell_effects cluster (topic_form pending s) = (CreateTopic.press cluster pending s).1
shell_effects cluster (cluster_test pending s) = (AddCluster.press_test pending s).1
shell_effects cluster (cluster_save pending s) = (AddCluster.press_save pending s).1
shell_effects cluster (message_form parses pending s) = (Produce.press parses cluster pending s).1

test-sent :
    (pending : Bool) (s : AddCluster.AddCluster)
    → (sent (AddCluster.press_test pending s).1 ≡ [])
      ⊎ (sent (AddCluster.press_test pending s).1 ≡ test_connection s.form ∷ [])
unfolding AddCluster.press_test
test-sent pending s = elim (Bool-cases (not (clickable false pending))) [
  | inl c ↦ inl (ground arith)
  | inr c ↦ elim (Bool-cases (AddCluster.is_valid (AddCluster.errors_of s.form))) [
    | inl v ↦ inr (ground arith)
    | inr v ↦ inl (ground arith)
  ]
]

save-sent :
    (pending : Bool) (s : AddCluster.AddCluster)
    → (sent (AddCluster.press_save pending s).1 ≡ [])
      ⊎ (sent (AddCluster.press_save pending s).1 ≡ create_cluster s.form ∷ [])
unfolding AddCluster.press_save
save-sent pending s = elim (Bool-cases (not (clickable false pending))) [
  | inl c ↦ inl (ground arith)
  | inr c ↦ elim (Bool-cases (AddCluster.is_valid (AddCluster.errors_of s.form))) [
    | inl v ↦ inr (ground arith)
    | inr v ↦ inl (ground arith)
  ]
]

message-sent :
    (parses : String → Bool) (cluster : String) (pending : Bool) (s : Produce.Produce)
    → (sent (Produce.press parses cluster pending s).1 ≡ [])
      ⊎ ((sent (Produce.press parses cluster pending s).1
            ≡ publish cluster s.topic (Produce.body s) ∷ [])
          × (parses s.value ≡ true))
unfolding Produce.press Produce.on_submit
message-sent parses cluster pending s =
    elim (Bool-cases (clickable (is_blank cluster || is_blank s.topic) pending)) [
      | inl c ↦ elim (Bool-cases (is_blank s.topic)) [
        | inl b ↦ inl (ground arith)
        | inr b ↦ elim (Bool-cases (parses s.value)) [
          | inl v ↦ inr (ground arith, v)
          | inr v ↦ inl (ground arith)
        ]
      ]
      | inr c ↦ inl (ground arith)
    ]

pub shell_effects-IsJustified :
    (cluster : String) (past : Past) (e : ShellEvent)
    → All (IsJustified past) (sent (shell_effects cluster e))
unfolding shell_effects
shell_effects-IsJustified cluster past (topic_form pending s) =
    elim (press-create_topic cluster pending s) [
      | inl e ↦ All-of_nil (IsJustified past) e
      | inr (n, m, e, p, c, f, k, l) ↦
          All-of_one (IsJustified past) e (creates_topic cluster s c f n m k.1 l.1)
    ]
shell_effects-IsJustified cluster past (cluster_test pending s) = elim (test-sent pending s) [
  | inl e ↦ All-of_nil (IsJustified past) e
  | inr e ↦ All-of_one (IsJustified past) e (tests_connection s.form)
]
shell_effects-IsJustified cluster past (cluster_save pending s) = elim (save-sent pending s) [
  | inl e ↦ All-of_nil (IsJustified past) e
  | inr e ↦ All-of_one (IsJustified past) e (saves_cluster s.form)
]
shell_effects-IsJustified cluster past (message_form parses pending s) =
    elim (message-sent parses cluster pending s) [
      | inl e ↦ All-of_nil (IsJustified past) e
      | inr (e, v) ↦ All-of_one (IsJustified past) e (publishes cluster s.topic (Produce.body s))
    ]
