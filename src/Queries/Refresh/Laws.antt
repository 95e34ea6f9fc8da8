-- ===== src/Queries/Refresh/Laws.antt =====
-- Each success of a mutation refreshes what lists the changed collection.
use kafkaesque.Ui.Table.{clickable}
use kafkaesque.Queries.Overview.{
  dashboard_audit_query, groups_query, health_query, events_query, rules_query,
  dashboard_topics_query,
}
use mathlib.Core.Path.{subst}
use kafkaesque.Queries.Resources.{
  schemas_query, acls_query, connectors_query, messages_query, messages_topics_query, topics_query,
  clusters_page_query,
}
use kafkaesque.Queries.Shell.{
  sidebar_query, produce_query, users_query, roles_page_query, roles_query, clusters_query,
}
use kafkaesque.Prelude.{
  sym, arith, All, refl, ◌∙◌, ap, true, Bool, false, ◌≡◌, Option, none, some, List, [], ◌∷◌, ◌++◌,
  map, String,
}
use kafkaesque.Queries.{Key, text}
use kafkaesque.Pages.Topics
use kafkaesque.Pages.Clusters
use kafkaesque.Pages.Schemas
use kafkaesque.Pages.Users
use kafkaesque.Pages.Roles
use kafkaesque.Pages.Connect
use kafkaesque.Pages.Acls
use kafkaesque.Pages.Alerts
use kafkaesque.Dialogs.CreateTopic
use kafkaesque.Dialogs.AddCluster
use kafkaesque.Dialogs.AddUser
use kafkaesque.Dialogs.EditUser
use kafkaesque.Dialogs.RoleEditor
use kafkaesque.Dialogs.Produce
use kafkaesque.Queries.Sites.{read, Site}
use kafkaesque.Dashboard.{press_refresh}
use kafkaesque.Queries.Refresh.{
  schema_registered, cluster_tested, Success, changes, effects, shows, Collection, name_of,
  refreshes, topic_created, topic_deleted, message_published, cluster_saved, cluster_deleted,
  user_created, user_updated, user_deleted, user_disabled, user_enabled, user_reset, role_saved,
  role_deleted, connector_restarted, connector_deleted, connector_seeded, acl_created, acl_deleted,
  rule_created, rule_deleted, events_changed,
}

abbrev Extends : List String → List Key → Type 0
Extends ks key = (rest : List Key) × (key ≡ map text ks ++ rest)

module _ (covers : List String → List Key → Bool) where
  succeeded :
      (m : Success) (key : List Key)
      → covers (name_of (changes m)) key ≡ true
      → refreshes covers (name_of (changes m)) (effects m) key ≡ true
  unfolding CreateTopic.created Topics.deleted Produce.published_with AddCluster.saved
      Clusters.deleted Clusters.tested Schemas.registered AddUser.created EditUser.updated
      Users.deleted Users.disabled Users.enabled Users.was_reset RoleEditor.saved Roles.deleted
      Connect.restarted Connect.deleted Connect.seeded Acls.created Acls.deleted Alerts.created
      Alerts.deleted Alerts.events_changed
  succeeded (topic_created c s) key h = rw h
  succeeded (topic_deleted c s) key h = rw h
  succeeded (message_published c r s) key h = rw h
  succeeded (cluster_saved b d s) key h = rw h
  succeeded (cluster_deleted s) key h = rw h
  succeeded (cluster_tested r id s) key h = rw h
  succeeded (schema_registered c s) key h = rw h
  succeeded (user_created a s) key h = rw h
  succeeded (user_updated s) key h = rw h
  succeeded (user_deleted s) key h = rw h
  succeeded (user_disabled s) key h = rw h
  succeeded (user_enabled s) key h = rw h
  succeeded (user_reset s) key h = rw h
  succeeded (role_saved r s) key h = rw h
  succeeded (role_deleted s) key h = rw h
  succeeded (connector_restarted c s) key h = rw h
  succeeded (connector_deleted c s) key h = rw h
  succeeded (connector_seeded c s) key h = rw h
  succeeded (acl_created c s) key h = rw h
  succeeded (acl_deleted c s) key h = rw h
  succeeded (rule_created c s) key h = rw h
  succeeded (rule_deleted c s) key h = rw h
  succeeded (events_changed c s) key h = rw h

abbrev Shown : Option Collection → List Key → Type 0
Shown none key = Unit
Shown (some col) key = Extends (name_of col) key

read-Shown : (s : Site) → Shown (shows s) (read s).key
unfolding clusters_query clusters_page_query roles_query roles_page_query users_query topics_query
    messages_topics_query dashboard_topics_query produce_query messages_query connectors_query
    acls_query rules_query events_query schemas_query
read-Shown Site.cluster_provider = (_, refl)
read-Shown Site.notification_bell = tt
read-Shown Site.use_roles = (_, refl)
read-Shown Site.roles_page = (_, refl)
read-Shown Site.users_page = (_, refl)
read-Shown Site.login_page = tt
read-Shown Site.audit_page = tt
read-Shown Site.clusters_page = (_, refl)
read-Shown Site.dashboard_audit = tt
read-Shown (Site.sidebar c) = tt
read-Shown (Site.topics_page c) = (_, refl)
read-Shown (Site.messages_topics c) = (_, refl)
read-Shown (Site.connectors_page c) = (_, refl)
read-Shown (Site.brokers_page c) = tt
read-Shown (Site.schemas_page c) = (_, refl)
read-Shown (Site.consumers_page c) = tt
read-Shown (Site.dashboard_health c) = tt
read-Shown (Site.dashboard_topics c) = (_, refl)
read-Shown (Site.dashboard_groups c) = tt
read-Shown (Site.alert_rules c) = (_, refl)
read-Shown (Site.command_palette b q c) = tt
read-Shown (Site.role_editor b) = tt
read-Shown (Site.produce_dialog b c) = (_, refl)
read-Shown (Site.messages_page c t s) = (_, refl)
read-Shown (Site.acls_page c s) = (_, refl)
read-Shown (Site.schema_drawer c o) = tt
read-Shown (Site.alert_consumers c s) = tt
read-Shown (Site.alert_events c s) = (_, refl)
read-Shown (Site.cluster_drawer o) = tt
read-Shown (Site.topic_drawer c o) = tt

-- With the documented matching of keys, each success of a mutation, whose callback runs for the cluster and
-- the topic that the request was about, has every component that lists the collection that the request
-- changed read it again, whichever component that is and whatever it filters by. `refetch` is taken to
-- read the query of that collection.
pub success-refreshes :
    (covers : List String → List Key → Bool)
    → ((ks : List String) (rest : List Key) → covers ks (map text ks ++ rest) ≡ true)
    → (m : Success) (asked : Collection) (s : Site) → changes m ≡ asked
    → shows s ≡ some asked
    → refreshes covers (name_of asked) (effects m) (read s).key ≡ true
success-refreshes covers law m asked s same h =
    let (rest, e) = subst (λ o. Shown o (read s).key) (h ∙ ap some (sym same)) (read-Shown s) in
    subst (λ a. refreshes covers (name_of a) (effects m) (read s).key ≡ true) same
      (succeeded covers m (read s).key
        (ap (covers (name_of (changes m))) e ∙ law (name_of (changes m)) rest))

-- The button of the dashboard has all that it shows read again, and the health in the sidebar.
pub press_refresh-refreshes :
    (covers : List String → List Key → Bool)
    → ((ks : List String) (rest : List Key) → covers ks (map text ks ++ rest) ≡ true)
    → (c : String)
    → All
        (λ (s : Site). refreshes covers [] (press_refresh c false false).1 (read s).key ≡ true)
        (Site.dashboard_health c
          ∷ Site.dashboard_topics c
          ∷ Site.dashboard_groups c
          ∷ Site.dashboard_audit
          ∷ Site.sidebar c
          ∷ [])
unfolding press_refresh clickable health_query dashboard_topics_query groups_query
    dashboard_audit_query sidebar_query
press_refresh-refreshes covers law c =
    let health = law ("health" ∷ c ∷ []) in
    let topics = law ("topics" ∷ c ∷ []) [] in
    let groups = law ("consumerGroups" ∷ c ∷ []) [] in
    let audit = law ("audit" ∷ "dashboard" ∷ []) [] in
    (
      ground (arith, health []),
      (
        ground (arith, topics),
        (
          ground (arith, groups),
          (ground (arith, audit), (ground (arith, health (text "sidebar" ∷ [])), tt)),
        ),
      ),
    )
