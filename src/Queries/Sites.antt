-- ===== src/Queries/Sites.antt =====
-- The places of the console that read, with what their queries depend on.
use kafkaesque.Prelude.{Bool, Option, none, some, String}
use kafkaesque.Api.Types.{Cluster, Topic}
use kafkaesque.Pages.Messages.{Messages}
use kafkaesque.Pages.Acls.{AclsState}
use kafkaesque.Pages.Alerts.{AlertsState}
use kafkaesque.Queries.{Query}
use kafkaesque.Queries.Shell.{
  clusters_query, sidebar_query, bell_query, search_query, permissions_query, produce_query,
  roles_query, roles_page_query, users_query, auth_config_query, audit_query,
}
use kafkaesque.Queries.Resources.{
  clusters_page_query, cluster_query, topics_query, partitions_query, messages_topics_query,
  messages_query, connectors_query, brokers_query, acls_query, schemas_query, schema_query,
  consumers_query,
}
use kafkaesque.Queries.Overview.{
  health_query, dashboard_topics_query, groups_query, dashboard_audit_query, alert_consumers_query,
  rules_query, events_query,
}

-- A first argument of type `String` is the id of the selected cluster.
pub data Site : Type 0 where
  cluster_provider notification_bell use_roles roles_page users_page login_page audit_page : Site
  clusters_page dashboard_audit : Site
  sidebar topics_page messages_topics connectors_page brokers_page schemas_page : String → Site
  consumers_page dashboard_health dashboard_topics dashboard_groups alert_rules : String → Site
  command_palette : Bool → (debounced : String) → String → Site
  role_editor : Bool → Site
  produce_dialog : Bool → String → Site
  cluster_drawer : Option Cluster → Site
  topic_drawer : String → Option Topic → Site
  messages_page : String → (topic : String) → Messages → Site
  acls_page : String → AclsState → Site
  schema_drawer : String → Option String → Site
  alert_consumers alert_events : String → AlertsState → Site

abbrev pub read : Site → Query
read cluster_provider = clusters_query
read notification_bell = bell_query
read use_roles = roles_query
read roles_page = roles_page_query
read users_page = users_query
read login_page = auth_config_query
read audit_page = audit_query
read clusters_page = clusters_page_query
read dashboard_audit = dashboard_audit_query
read (sidebar c) = sidebar_query c
read (topics_page c) = topics_query c
read (messages_topics c) = messages_topics_query c
read (connectors_page c) = connectors_query c
read (brokers_page c) = brokers_query c
read (schemas_page c) = schemas_query c
read (consumers_page c) = consumers_query c
read (dashboard_health c) = health_query c
read (dashboard_topics c) = dashboard_topics_query c
read (dashboard_groups c) = groups_query c
read (alert_rules c) = rules_query c
read (command_palette b q c) = search_query b q c
read (role_editor b) = permissions_query b
read (produce_dialog b c) = produce_query b c
read (cluster_drawer o) = cluster_query o
read (topic_drawer c o) = partitions_query c o
read (messages_page c t s) = messages_query c t s
read (acls_page c s) = acls_query c s
read (schema_drawer c o) = schema_query c o
read (alert_consumers c s) = alert_consumers_query c s
read (alert_events c s) = events_query c s

-- The cluster whose resources a site reads, where it reads those of one.
abbrev pub about : Site → Option String
about (sidebar c) = some c
about (topics_page c) = some c
about (messages_topics c) = some c
about (connectors_page c) = some c
about (brokers_page c) = some c
about (schemas_page c) = some c
about (consumers_page c) = some c
about (dashboard_health c) = some c
about (dashboard_topics c) = some c
about (dashboard_groups c) = some c
about (alert_rules c) = some c
about (produce_dialog b c) = some c
about (cluster_drawer (some c)) = some c.id
about (topic_drawer c o) = some c
about (messages_page c t s) = some c
about (acls_page c s) = some c
about (schema_drawer c o) = some c
about (alert_consumers c s) = some c
about (alert_events c s) = some c
about _ = none
