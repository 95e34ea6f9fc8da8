-- ===== src/Console/Requests.antt =====
-- Which requests the console may have sent, by what the users of the session were allowed to do.
use mathlib.Core.Path.{subst}
use kafkaesque.Ui.{sent, mutate, Effect}
use kafkaesque.Prelude.{
  ℕ, ◌≤◌, sym, All, [], ◌⊎◌, ◌≡◌, true, false, leb, List, Memᴰ, Option, some, none, String, ◌∷◌,
  inl, inr,
}
use kafkaesque.Prelude.Texts.{is_blank, trim}
use kafkaesque.Api.Json.{Json}
use kafkaesque.Api.Types.{User, Topic, AclInfo, ClusterCreateBody, RoleRecord}
use kafkaesque.Api.Transport.{Request}
use kafkaesque.Auth.Guards.{can}
use kafkaesque.Api.Client.{
  delete_topic, create_topic, publish, restart_connector, delete_connector, create_connector,
  delete_cluster, test_cluster, create_cluster, test_connection, create_acl, delete_acl,
  register_schema, create_alert_rule, delete_alert_rule, evaluate_alerts, resolve_alert_event,
  change_password,
}
use kafkaesque.Pages.Users.Safety.{IsAllowed}
use kafkaesque.Pages.Roles.Laws.{Removes}
use kafkaesque.Pages.Topics.Laws.{IsDeletable}
use kafkaesque.Dialogs.AddUser.{text_length}
use kafkaesque.Dialogs.AddUser
use kafkaesque.Dialogs.EditUser
use kafkaesque.Dialogs.EditUser.{UserRow}
use kafkaesque.Dialogs.RoleEditor
use kafkaesque.Dialogs.CreateTopic
use kafkaesque.Dialogs.Forms.{topic_body}

-- The users that the session has had since the page was loaded, the present one included, and all topics
-- and roles that the server lists in that time.
pub record Past : Type 0 where
  pub users : List (Option User)
  pub topics : List Topic
  pub roles : List RoleRecord

abbrev pub note : Option User → Past → Past
note me past = record past { users = me ∷ past.users }

-- One of them could do this.
abbrev pub Had : Past → String → Type 0
Had past permission = (me : Option User) × Memᴰ me past.users × (can me permission ≡ true)

pub data IsJustified (past : Past) : Request → Type 0 where
  about_user :
      (me : Option User) {r : Request} → Memᴰ me past.users → IsAllowed me r → IsJustified past r
  adds_user : Had past "users.create" → (f : AddUser.Form) → IsJustified past (AddUser.request f)
  edits_user :
      Had past "users.update"
      → (u : UserRow) (f : EditUser.Form) → IsJustified past (EditUser.request u f)
  removes_role :
      (me : Option User) {r : Request}
      → Memᴰ me past.users
      → Removes me past.roles r
      → IsJustified past r
  creates_role :
      Had past "roles.create"
      → (s : RoleEditor.RoleEditor) → IsJustified past (RoleEditor.request none s)
  updates_role :
      Had past "roles.update"
      → (r : RoleRecord) (s : RoleEditor.RoleEditor)
      → IsJustified past (RoleEditor.request (some r) s)
  deletes_topic :
      (cluster name : String)
      → IsDeletable past.topics name
      → IsJustified past (delete_topic cluster name)
  creates_topic :
      (cluster : String) (s : CreateTopic.CreateTopic)
      → is_blank cluster ≡ false
      → CreateTopic.matches_name (trim s.name) ≡ true
      → (n m : ℕ) → 1 ≤ n
      → 1 ≤ m
      → IsJustified past (create_topic cluster (topic_body (trim s.name) n m))
  publishes : (cluster topic : String) (body : Json) → IsJustified past (publish cluster topic body)
  restarts_connector :
      Had past "connect.manage"
      → (cluster name : String) → IsJustified past (restart_connector cluster name)
  deletes_connector :
      Had past "connect.manage"
      → (cluster name : String) → IsJustified past (delete_connector cluster name)
  creates_connector :
      Had past "connect.manage"
      → (cluster name : String) (config : List (String × String))
      → IsJustified past (create_connector cluster name config)
  deletes_cluster :
      Had past "cluster.read" ⊎ Had past "cluster.manage"
      → (id : String) → IsJustified past (delete_cluster id)
  tests_cluster : Had past "cluster.read" → (id : String) → IsJustified past (test_cluster id)
  saves_cluster : (b : ClusterCreateBody) → IsJustified past (create_cluster b)
  tests_connection : (b : ClusterCreateBody) → IsJustified past (test_connection b)
  creates_acl :
      Had past "acl.manage"
      → (cluster : String) (a : AclInfo) → IsJustified past (create_acl cluster a)
  deletes_acl :
      Had past "acl.manage"
      → (cluster : String) (a : AclInfo) → IsJustified past (delete_acl cluster a)
  registers_schema :
      Had past "schema.write"
      → (cluster subject schema : String) → is_blank subject ≡ false
      → IsJustified past (register_schema cluster subject schema (some "AVRO"))
  creates_rule :
      Had past "alert.manage"
      → (cluster name kind : String) (threshold : Json)
      → IsJustified past (create_alert_rule cluster name kind threshold (some true))
  deletes_rule :
      Had past "alert.manage"
      → (cluster id : String) → IsJustified past (delete_alert_rule cluster id)
  evaluates : (cluster : String) → IsJustified past (evaluate_alerts cluster)
  resolves : (id : String) → IsJustified past (resolve_alert_event id)
  changes_password :
      (old new : String)
      → leb 6 (text_length new) ≡ true
      → IsJustified past (change_password old new)

pub Had-cons : (me : Option User) (past : Past) (p : String) → Had past p → Had (note me past) p
Had-cons me past p (u, m, h) = (u, Memᴰ.tail m, h)

-- What was justified stays so.
pub IsJustified-cons :
    (me : Option User) (past : Past) {r : Request}
    → IsJustified past r
    → IsJustified (note me past) r
IsJustified-cons me past (about_user u m a) = about_user u (Memᴰ.tail m) a
IsJustified-cons me past (adds_user h f) = adds_user (Had-cons me past _ h) f
IsJustified-cons me past (edits_user h u f) = edits_user (Had-cons me past _ h) u f
IsJustified-cons me past (removes_role u m a) = removes_role u (Memᴰ.tail m) a
IsJustified-cons me past (creates_role h s) = creates_role (Had-cons me past _ h) s
IsJustified-cons me past (updates_role h r s) = updates_role (Had-cons me past _ h) r s
IsJustified-cons me past (deletes_topic c n d) = deletes_topic c n d
IsJustified-cons me past (creates_topic c s g f n m k l) = creates_topic c s g f n m k l
IsJustified-cons me past (publishes c t b) = publishes c t b
IsJustified-cons me past (restarts_connector h c n) = restarts_connector (Had-cons me past _ h) c n
IsJustified-cons me past (deletes_connector h c n) = deletes_connector (Had-cons me past _ h) c n
IsJustified-cons me past (creates_connector h c n k) =
    creates_connector (Had-cons me past _ h) c n k
IsJustified-cons me past (deletes_cluster (inl h) id) =
    deletes_cluster (inl (Had-cons me past _ h)) id
IsJustified-cons me past (deletes_cluster (inr h) id) =
    deletes_cluster (inr (Had-cons me past _ h)) id
IsJustified-cons me past (tests_cluster h id) = tests_cluster (Had-cons me past _ h) id
IsJustified-cons me past (saves_cluster b) = saves_cluster b
IsJustified-cons me past (tests_connection b) = tests_connection b
IsJustified-cons me past (creates_acl h c a) = creates_acl (Had-cons me past _ h) c a
IsJustified-cons me past (deletes_acl h c a) = deletes_acl (Had-cons me past _ h) c a
IsJustified-cons me past (registers_schema h c s t n) =
    registers_schema (Had-cons me past _ h) c s t n
IsJustified-cons me past (creates_rule h c n k t) = creates_rule (Had-cons me past _ h) c n k t
IsJustified-cons me past (deletes_rule h c id) = deletes_rule (Had-cons me past _ h) c id
IsJustified-cons me past (evaluates c) = evaluates c
IsJustified-cons me past (resolves id) = resolves id
IsJustified-cons me past (changes_password o n h) = changes_password o n h

-- What a handler of a page leaves: a state of which `P` holds, and requests that are justified.
module _ {S : Type 0} (P : S → Type 0) (past : Past) where
  abbrev pub Goes : S × List Effect → Type 0
  Goes r = P r.0 × All (IsJustified past) (sent r.1)

  pub Goes-idle : (r : S × List Effect) (s : S) → r ≡ (s, []) → P s → Goes r
  Goes-idle r s e h = subst Goes (sym e) (h, tt)

  pub Goes-sends :
      (r : S × List Effect) (s : S) (q : Request)
      → r ≡ (s, mutate q ∷ [])
      → P s
      → IsJustified past q
      → Goes r
  Goes-sends r s q e h j = subst Goes (sym e) (h, (j, tt))
