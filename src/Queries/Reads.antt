-- ===== src/Queries/Reads.antt =====
-- When a query runs.
use kafkaesque.Pages.Acls.{query_request}
use kafkaesque.Queries.Overview.{
  events_query, alert_consumers_query, rules_query, groups_query, dashboard_topics_query,
  health_query, dashboard_audit_query,
}
use kafkaesque.Queries.Resources.{
  schema_query, acls_query, messages_query, partitions_query, cluster_query, consumers_query,
  schemas_query, brokers_query, connectors_query, messages_topics_query, topics_query,
  clusters_page_query,
}
use kafkaesque.Queries.Shell.{
  produce_query, permissions_query, search_query, sidebar_query, audit_query, auth_config_query,
  users_query, roles_page_query, roles_query, bell_query, clusters_query,
}
use kafkaesque.Prelude.{
  or_else, true, false, ◌≡◌, refl, arith, Option, none, some, String, and-cases,
}
use kafkaesque.Prelude.Texts.{is_blank}
use kafkaesque.Api.Transport.{Request, get}
use kafkaesque.Api.Client.{
  clusters, cluster_health, audit, search, permissions, topics, roles, users, auth_config,
  get_cluster, partitions, messages, connectors, brokers, acls, schemas, get_schema,
  consumer_groups, alert_rules as rules_of, alert_events as events_of,
}
use kafkaesque.Queries.{given}
use kafkaesque.Queries.Sites.{
  Site, read, about, cluster_provider, notification_bell, use_roles, roles_page, users_page,
  login_page, audit_page, clusters_page, dashboard_audit, sidebar, topics_page, messages_topics,
  connectors_page, brokers_page, schemas_page, consumers_page, dashboard_health, dashboard_topics,
  dashboard_groups, alert_rules, command_palette, role_editor, produce_dialog, cluster_drawer,
  topic_drawer, messages_page, acls_page, schema_drawer, alert_consumers, alert_events,
}

-- A request that only reads.
abbrev pub IsRead : Request → Type 0
IsRead r = (r.method ≡ get) × (r.body ≡ none)

abbrev pub Runs : Option String → Option Request → Type 0
Runs cluster fetch =
    ((r : Request) × (fetch ≡ some r) × IsRead r)
    × ((c : String) → cluster ≡ some c → is_blank c ≡ false)

given_of : (c d : String) → given c ≡ true → some c ≡ some d → is_blank d ≡ false
given_of c d h e = let same : c ≡ d = cc in ground arith

plain : (r : Request) → IsRead r → Runs none (some r)
plain r h = ((r, refl, h), λ c e. cc)

chosen : (c : String) (r : Request) → IsRead r → given c ≡ true → Runs (some c) (some r)
chosen c r h g = ((r, refl, h), λ d e. given_of c d g e)

events_of-IsRead : (c : String) → IsRead (events_of (some c))
unfolding events_of
events_of-IsRead c = (refl, refl)

-- A query that runs does not throw before its request, only reads, and where it is about a cluster, one
-- is selected.
pub enabled-Runs : (s : Site) → (read s).enabled ≡ true → Runs (about s) (read s).fetch
unfolding clusters_query bell_query roles_query roles_page_query users_query auth_config_query
    audit_query clusters_page_query dashboard_audit_query sidebar_query topics_query
    messages_topics_query connectors_query brokers_query schemas_query consumers_query health_query
    dashboard_topics_query groups_query rules_query search_query permissions_query produce_query
    cluster_query partitions_query messages_query acls_query schema_query alert_consumers_query
    events_query query_request clusters cluster_health audit search permissions topics roles users
    auth_config get_cluster partitions messages connectors brokers acls schemas get_schema
    consumer_groups rules_of
enabled-Runs cluster_provider h = plain _ (refl, refl)
enabled-Runs notification_bell h = plain _ (refl, refl)
enabled-Runs use_roles h = plain _ (refl, refl)
enabled-Runs roles_page h = plain _ (refl, refl)
enabled-Runs users_page h = plain _ (refl, refl)
enabled-Runs login_page h = plain _ (refl, refl)
enabled-Runs audit_page h = plain _ (refl, refl)
enabled-Runs clusters_page h = plain _ (refl, refl)
enabled-Runs dashboard_audit h = plain _ (refl, refl)
enabled-Runs (sidebar c) h = chosen c _ (refl, refl) h
enabled-Runs (topics_page c) h = chosen c _ (refl, refl) h
enabled-Runs (messages_topics c) h = chosen c _ (refl, refl) h
enabled-Runs (connectors_page c) h = chosen c _ (refl, refl) h
enabled-Runs (brokers_page c) h = chosen c _ (refl, refl) h
enabled-Runs (schemas_page c) h = chosen c _ (refl, refl) h
enabled-Runs (consumers_page c) h = chosen c _ (refl, refl) h
enabled-Runs (dashboard_health c) h = chosen c _ (refl, refl) h
enabled-Runs (dashboard_topics c) h = chosen c _ (refl, refl) h
enabled-Runs (dashboard_groups c) h = chosen c _ (refl, refl) h
enabled-Runs (alert_rules c) h = chosen c _ (refl, refl) h
enabled-Runs (command_palette b q c) h = plain _ (refl, refl)
enabled-Runs (role_editor b) h = plain _ (refl, refl)
enabled-Runs (produce_dialog b c) h = chosen c _ (refl, refl) (and-cases (given c) b h).0
enabled-Runs (cluster_drawer none) h = absurd (cc)
enabled-Runs (cluster_drawer (some c)) h = chosen c.id _ (refl, refl) h
enabled-Runs (topic_drawer c none) h = absurd (cc)
enabled-Runs (topic_drawer c (some t)) h =
    chosen c _ (refl, refl) (and-cases (given c) (given t.name) h).0
enabled-Runs (messages_page c t s) h = chosen c _ (refl, refl) (and-cases (given c) (given t) h).0
enabled-Runs (acls_page c s) h = chosen c _ (refl, refl) h
enabled-Runs (schema_drawer c o) h =
    chosen c _ (refl, refl) (and-cases (given c) (given (or_else o "")) h).0
enabled-Runs (alert_consumers c s) h = chosen c _ (refl, refl) h
enabled-Runs (alert_events c s) h = chosen c _ (events_of-IsRead c) h
