-- ===== src/Queries/Refresh.antt =====
-- What is read again once a mutation has succeeded.
pub mod Laws
use kafkaesque.Queries.Overview.{events_query, rules_query, dashboard_topics_query}
use mathlib.Core.Path.{subst}
use kafkaesque.Queries.Resources.{
  acls_query, connectors_query, messages_query, messages_topics_query, topics_query,
  clusters_page_query,
}
use kafkaesque.Queries.Shell.{
  produce_query, users_query, roles_page_query, roles_query, clusters_query,
}
use kafkaesque.Prelude.{
  refl, ◌∙◌, ap, true, Bool, false, ◌≡◌, Option, none, some, List, [], ◌∷◌, ◌++◌, map, String, any,
}
use kafkaesque.Api.Types.{RoleRecord, TestConnectionResult}
use kafkaesque.Ui.{Effect, invalidate, refetch}
use kafkaesque.Queries.{Key, text}
use kafkaesque.Pages.Topics
use kafkaesque.Pages.Clusters
use kafkaesque.Pages.Schemas
use kafkaesque.Pages.Users
use kafkaesque.Pages.Roles
use kafkaesque.Pages.Connect
use kafkaesque.Pages.Acls
use kafkaesque.Pages.Alerts
use kafkaesque.Dialogs.CreateTopic
use kafkaesque.Dialogs.AddCluster
use kafkaesque.Dialogs.AddUser
use kafkaesque.Dialogs.EditUser
use kafkaesque.Dialogs.RoleEditor
use kafkaesque.Dialogs.Produce
use kafkaesque.Queries.Sites.{read, Site}

-- What a mutation changes; the texts are a cluster's id and a topic's name.
pub data Collection : Type 0 where
  all_clusters all_users all_roles : Collection
  topics_of connectors_of acls_of rules_of events_of schemas_of : String → Collection
  messages_of : String → String → Collection

-- The collection whose members a site lists, with filters or not.
abbrev pub shows : Site → Option Collection
shows Site.cluster_provider = some all_clusters
shows Site.clusters_page = some all_clusters
shows Site.use_roles = some all_roles
shows Site.roles_page = some all_roles
shows Site.users_page = some all_users
shows (Site.topics_page c) = some (topics_of c)
shows (Site.messages_topics c) = some (topics_of c)
shows (Site.dashboard_topics c) = some (topics_of c)
shows (Site.produce_dialog b c) = some (topics_of c)
shows (Site.messages_page c t s) = some (messages_of c t)
shows (Site.connectors_page c) = some (connectors_of c)
shows (Site.acls_page c s) = some (acls_of c)
shows (Site.alert_rules c) = some (rules_of c)
shows (Site.alert_events c s) = some (events_of c)
shows (Site.schemas_page c) = some (schemas_of c)
shows _ = none

-- A mutation that has succeeded, with the cluster and the state of the component whose callback runs.
pub data Success : Type 0 where
  topic_created : String → CreateTopic.CreateTopic → Success
  topic_deleted : String → Topics.TopicsState → Success
  message_published : String → Produce.PublishResult → Produce.Produce → Success
  cluster_saved : (saving testing : Bool) → AddCluster.AddCluster → Success
  cluster_deleted : Clusters.ClustersState → Success
  cluster_tested : TestConnectionResult → String → Clusters.ClustersState → Success
  schema_registered : String → Schemas.SchemasState → Success
  user_created : String → AddUser.AddUser → Success
  user_updated : EditUser.EditUser → Success
  user_deleted user_disabled user_enabled user_reset : Users.UsersState → Success
  role_saved : Option RoleRecord → RoleEditor.RoleEditor → Success
  role_deleted : Roles.RolesState → Success
  connector_restarted connector_deleted connector_seeded : String → Connect.ConnectState → Success
  acl_created acl_deleted : String → Acls.AclsState → Success
  rule_created rule_deleted events_changed : String → Alerts.AlertsState → Success

-- The collection of the cluster and the topic for which the callback runs.
abbrev pub changes : Success → Collection
changes (topic_created c s) = topics_of c
changes (topic_deleted c s) = topics_of c
changes (message_published c r s) = messages_of c s.topic
changes (cluster_saved b d s) = all_clusters
changes (cluster_deleted s) = all_clusters
changes (cluster_tested r id s) = all_clusters
changes (schema_registered c s) = schemas_of c
changes (user_created a s) = all_users
changes (user_updated s) = all_users
changes (user_deleted s) = all_users
changes (user_disabled s) = all_users
changes (user_enabled s) = all_users
changes (user_reset s) = all_users
changes (role_saved r s) = all_roles
changes (role_deleted s) = all_roles
changes (connector_restarted c s) = connectors_of c
changes (connector_deleted c s) = connectors_of c
changes (connector_seeded c s) = connectors_of c
changes (acl_created c s) = acls_of c
changes (acl_deleted c s) = acls_of c
changes (rule_created c s) = rules_of c
changes (rule_deleted c s) = rules_of c
changes (events_changed c s) = events_of c

-- The effects of its callback.
abbrev pub effects : Success → List Effect
effects (topic_created c s) = (CreateTopic.created c s).1
effects (topic_deleted c s) = (Topics.deleted c s).1
effects (message_published c r s) = (Produce.published_with c r s).1
effects (cluster_saved b d s) = (AddCluster.saved b d s).1
effects (cluster_deleted s) = (Clusters.deleted s).1
effects (cluster_tested r id s) = (Clusters.tested r id s).1
effects (schema_registered c s) = (Schemas.registered s).1
effects (user_created a s) = (AddUser.created a s).1
effects (user_updated s) = (EditUser.updated s).1
effects (user_deleted s) = (Users.deleted s).1
effects (user_disabled s) = (Users.disabled s).1
effects (user_enabled s) = (Users.enabled s).1
effects (user_reset s) = (Users.was_reset s).1
effects (role_saved r s) = (RoleEditor.saved r s).1
effects (role_deleted s) = (Roles.deleted s).1
effects (connector_restarted c s) = (Connect.restarted c s).1
effects (connector_deleted c s) = (Connect.deleted c s).1
effects (connector_seeded c s) = (Connect.seeded c s).1
effects (acl_created c s) = (Acls.created c s).1
effects (acl_deleted c s) = (Acls.deleted c s).1
effects (rule_created c s) = (Alerts.created c s).1
effects (rule_deleted c s) = (Alerts.deleted c s).1
effects (events_changed c s) = (Alerts.events_changed c s).1

-- The members with which the keys of a collection begin.
abbrev pub name_of : Collection → List String
name_of all_clusters = "clusters" ∷ []
name_of all_users = "users" ∷ []
name_of all_roles = "roles" ∷ []
name_of (topics_of c) = "topics" ∷ c ∷ []
name_of (connectors_of c) = "connectors" ∷ c ∷ []
name_of (acls_of c) = "acls" ∷ c ∷ []
name_of (rules_of c) = "alert-rules" ∷ c ∷ []
name_of (schemas_of c) = "schemas" ∷ c ∷ []
name_of (events_of c) = "alert-events" ∷ c ∷ []
name_of (messages_of c t) = "messages" ∷ c ∷ t ∷ []

-- react-query's test whether a key given to `invalidateQueries` is about a query's key: as documented,
-- it is where the query's begins with it. `refetch` reads the query again whose key has the members `own`.
module _ (covers : List String → List Key → Bool) (own : List String) where
  abbrev pub is_about : List Key → Effect → Bool
  is_about key (invalidate ks) = covers ks key
  is_about key refetch = covers own key
  is_about key _ = false

  -- Some effect has the query of the key read again.
  abbrev pub refreshes : List Effect → List Key → Bool
  refreshes es key = any (is_about key) es
