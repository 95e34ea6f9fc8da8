-- ===== src/Dialogs/Forms.antt =====
-- When the forms of frontend/src/components/dialogs send a request, and what it says.
use kafkaesque.Ui.{DialogCall, dialog, Effect, sent}
use kafkaesque.Ui.Table.{clickable}
use kafkaesque.Prelude.Texts.{negsuc, pos, parse_int, trim, is_blank}
use kafkaesque.Prelude.{
  ap, ◌∙◌, refl, is_some, Option, ◌||◌, Bool-cases, any, arith, if◌then◌else◌, true, false, inr,
  ◌==◌, ◌≤◌, inl, leb, ◌∷◌, Option-cases, some, ◌&&◌, ◌⊎◌, [], none, ℕ, ◌≡◌, Bool, String, not,
}
use kafkaesque.Api.Client.{create_topic}
use kafkaesque.Api.Json.{object, str, num, Json}
use kafkaesque.Dialogs.AddCluster
use kafkaesque.Dialogs.AddUser
use kafkaesque.Dialogs.CreateTopic

-- A count as the form of a topic must have it.
unfoldable pub IsCount : String → Type 0
IsCount text = (n : ℕ) × (parse_int text ≡ some (pos n)) × (1 ≤ n)

pub count_error-IsCount : (text : String) → CreateTopic.count_error text ≡ none → IsCount text
unfolding CreateTopic.count_error CreateTopic.below_one IsCount
count_error-IsCount text h = elim (Option-cases (parse_int text)) [
  | inl e ↦ absurd (ground arith)
  | inr (pos n, e) ↦ (n, e, ground arith)
  | inr (negsuc n, e) ↦ absurd (ground arith)
]

matches_of_error :
    (name : String)
    → CreateTopic.name_error name ≡ none
    → CreateTopic.matches_name (trim name) ≡ true
unfolding CreateTopic.name_error
matches_of_error name h = elim (Bool-cases (is_blank (trim name))) [
  | inl e ↦ absurd (ground arith)
  | inr e ↦ elim (Bool-cases (CreateTopic.matches_name (trim name))) [
    | inl m ↦ m
    | inr m ↦ absurd (ground arith)
  ]
]

none_of_not : (o : Option String) → is_some o ≡ false → o ≡ none
none_of_not none h = refl
none_of_not (some x) h = absurd (ground arith)

-- What a request to create a topic must say.
abbrev pub topic_body : String → ℕ → ℕ → Json
topic_body name partitions rf =
    object
      (("name", str name) ∷ ("partitions", num partitions) ∷ ("replication_factor", num rf) ∷ [])

body-counts :
    (s : CreateTopic.CreateTopic) (n m : ℕ)
    → parse_int s.partitions ≡ some (pos n)
    → parse_int s.rf ≡ some (pos m)
    → CreateTopic.body s ≡ topic_body (trim s.name) n m
unfolding CreateTopic.body
body-counts s n m e f = rw (e, f) refl

-- Pressing the button to create a topic sends nothing, or one request, while none is pending and a
-- cluster is selected: it has the trimmed name, which is of the allowed characters, and the two numbers
-- that the texts of the partitions and of the replication factor begin with, which are at least 1.
pub press-create_topic :
    (cluster : String) (pending : Bool) (s : CreateTopic.CreateTopic)
    → let requests = sent (CreateTopic.press cluster pending s).1 in
      (requests ≡ [])
      ⊎ ((n : ℕ) × (m : ℕ) × (requests ≡ create_topic cluster (topic_body (trim s.name) n m) ∷ [])
          × (pending ≡ false)
          × (is_blank cluster ≡ false)
          × (CreateTopic.matches_name (trim s.name) ≡ true)
          × ((parse_int s.partitions ≡ some (pos n)) × (1 ≤ n))
          × ((parse_int s.rf ≡ some (pos m)) × (1 ≤ m)))
unfolding CreateTopic.press CreateTopic.on_submit CreateTopic.is_valid CreateTopic.errors_of
    clickable IsCount
press-create_topic cluster pending s =
    elim (Bool-cases (clickable (not (is_blank s.success) || is_blank cluster) pending)) [
      | inl c ↦ elim (Bool-cases (CreateTopic.is_valid (CreateTopic.errors_of s))) [
        | inl v ↦
            let (n, en, ln) =
              count_error-IsCount s.partitions
                (none_of_not (CreateTopic.count_error s.partitions) (ground arith)) in
            let (m, em, lm) =
              count_error-IsCount s.rf
                (none_of_not (CreateTopic.count_error s.rf) (ground arith)) in
            let one : sent (CreateTopic.press cluster pending s).1
                ≡ create_topic cluster (CreateTopic.body s) ∷ [] =
              ground arith in
            inr (
              n,
              m,
              one ∙ ap (λ b. create_topic cluster b ∷ []) (body-counts s n m en em),
              ground arith,
              ground arith,
              matches_of_error s.name (none_of_not (CreateTopic.name_error s.name) (ground arith)),
              (en, ln),
              (em, lm),
            )
        | inr v ↦ inl (ground arith)
      ]
      | inr c ↦ inl (ground arith)
    ]

-- Pressing the button to add a user, while no request is pending, sends the request exactly when the
-- name and the email are not blank, the password has at least 6 characters and both passwords are the
-- same; otherwise it sends nothing, and an error is shown.
pub handle_submit-sent :
    (s : AddUser.AddUser)
    → let f = s.form in
      let fine =
        not (is_blank (trim f.email))
        && not (is_blank (trim f.display_name))
        && leb 6 (AddUser.text_length f.password)
        && f.password == f.confirm_password in
      (sent (AddUser.handle_submit false s).1 ≡ (if fine then AddUser.request f ∷ [] else []))
      × (AddUser.is_valid (AddUser.handle_submit false s).0.errors ≡ fine)
unfolding AddUser.handle_submit AddUser.is_valid AddUser.errors_of
handle_submit-sent s = (ground arith, ground arith)

abbrev pub is_close : Effect → Bool
is_close (dialog DialogCall.close_add_cluster) = true
is_close _ = false

-- A cluster that is saved leaves the dialog open when `saved` runs as the render made it in which the
-- request was pending, and closes it otherwise, unless a test is pending.
saved-dialogs :
    (saving testing : Bool) (s : AddCluster.AddCluster)
    → any is_close (AddCluster.saved saving testing s).1 ≡ not (saving || testing)
unfolding AddCluster.saved AddCluster.handle_close
saved-dialogs saving testing s = ground arith
