-- ===== src/Queries/Keys.antt =====
-- Components share the answers that are stored under a key: what a key stands for.
use kafkaesque.Pages.Messages.{tail_mode, query_params}
use kafkaesque.Pages.Acls.{query_request}
use kafkaesque.Queries.Overview.{
  events_query, alert_consumers_query, rules_query, groups_query, dashboard_topics_query,
  health_query, dashboard_audit_query,
}
use kafkaesque.Queries.Shell.{
  produce_query, permissions_query, search_query, sidebar_query, audit_query, auth_config_query,
  users_query, roles_page_query, roles_query, bell_query, clusters_query,
}
use kafkaesque.Queries.Resources.{
  acl_filters, schema_query, acls_query, messages_query, partitions_query, cluster_query,
  consumers_query, schemas_query, brokers_query, connectors_query, messages_topics_query,
  topics_query, clusters_page_query, filter_key,
}
use kafkaesque.Prelude.{
  if◌then◌else◌, ◌==◌, ◌≡◌, sym, ◌∙◌, ap, refl, Option, none, some, List, [], ◌∷◌, ◌&&◌, String,
  or_else,
}
use kafkaesque.Prelude.Texts.{is_blank, trim, some_text}
use kafkaesque.Api.Transport.{Request}
use kafkaesque.Api.Client.{
  clusters, cluster_health, audit, search, permissions, topics, roles, users, auth_config,
  get_cluster, partitions, messages, connectors, brokers, acls, schemas, get_schema,
  consumer_groups, alert_rules as rules_of, alert_events as events_of,
}
use kafkaesque.Queries.{opt_key, Key, text, absent, filters}
use kafkaesque.Queries.Sites.{
  Site, read, cluster_provider, notification_bell, use_roles, roles_page, users_page, login_page,
  audit_page, clusters_page, dashboard_audit, sidebar, topics_page, messages_topics,
  connectors_page, brokers_page, schemas_page, consumers_page, dashboard_health, dashboard_topics,
  dashboard_groups, alert_rules, command_palette, role_editor, produce_dialog, cluster_drawer,
  topic_drawer, messages_page, acls_page, schema_drawer, alert_consumers, alert_events,
}

-- What the members of a key after its name say is read. It is written down without the queries.
abbrev of_none : String → Option Request
of_none name =
    if name == "clusters"
    then some clusters
    else if name == "audit"
    then some audit
    else if name == "permissions"
    then some permissions
    else if name == "roles"
    then some roles
    else if name == "users"
    then some users
    else if name == "auth-config"
    then some auth_config
    else none

abbrev of_text : String → String → Option Request
of_text name c =
    if name == "audit"
    then some audit
    else if name == "cluster"
    then some (get_cluster c)
    else if name == "topics"
    then some (topics c)
    else if name == "health"
    then some (cluster_health c)
    else if name == "connectors"
    then some (connectors c)
    else if name == "brokers"
    then some (brokers c)
    else if name == "schemas"
    then some (schemas c)
    else if name == "consumers"
    then some (consumer_groups c)
    else if name == "consumerGroups"
    then some (consumer_groups c)
    else if name == "alert-rules"
    then some (rules_of c)
    else if name == "alert-events"
    then some (events_of (some c))
    else none

abbrev of_texts : String → String → String → Option Request
of_texts name c t =
    if name == "health"
    then some (cluster_health c)
    else if name == "consumers"
    then some (consumer_groups c)
    else if name == "search"
    then some (search c (some_text (some t)))
    else if name == "partitions"
    then some (partitions c t)
    else if name == "schema"
    then some (get_schema c t none)
    else none

-- The parameters of a page of messages.
abbrev page_params : String → String → List (String × String)
page_params part off =
    ("limit", "50")
    ∷ (if is_blank part && is_blank off
        then []
        else ("partition", if is_blank part then "0" else part)
          ∷ (if is_blank off then [] else ("offset", off) ∷ []))

abbrev stands_for : List Key → Option Request
stands_for (text name ∷ []) = of_none name
stands_for (text name ∷ text c ∷ []) = of_text name c
stands_for (text name ∷ text c ∷ text t ∷ []) = of_texts name c t
stands_for (text name ∷ text c ∷ absent ∷ []) =
    if name == "acls"
    then some (acls c none none)
    else if name == "schema"
    then some (get_schema c "null" none)
    else none
stands_for (text name ∷ text c ∷ filters kind resource ∷ []) = some (acls c kind resource)
stands_for (text name ∷ text c ∷ text t ∷ text part ∷ text off ∷ []) =
    some (messages c t (page_params (trim part) (trim off)))
stands_for _ = none

acl_key :
    (c : String) (kind resource : Option String)
    → stands_for (text "acls" ∷ text c ∷ filter_key kind resource ∷ [])
      ≡ some (acls c kind resource)
acl_key c none none = refl
acl_key c (some k) r = refl
acl_key c none (some r) = refl

schema_key :
    (c : String) (o : Option String)
    → stands_for (text "schema" ∷ text c ∷ opt_key o ∷ [])
      ≡ some (get_schema c (or_else o "null") none)
schema_key c none = refl
schema_key c (some o) = refl

-- Each key says what its query requests.
read-stands_for : (s : Site) → stands_for (read s).key ≡ (read s).fetch
unfolding clusters_query bell_query roles_query roles_page_query users_query auth_config_query
    audit_query clusters_page_query dashboard_audit_query sidebar_query topics_query
    messages_topics_query connectors_query brokers_query schemas_query consumers_query health_query
    dashboard_topics_query groups_query rules_query search_query permissions_query produce_query
    cluster_query partitions_query messages_query acls_query schema_query alert_consumers_query
    events_query acl_filters query_request query_params tail_mode
read-stands_for cluster_provider = refl
read-stands_for notification_bell = refl
read-stands_for use_roles = refl
read-stands_for roles_page = refl
read-stands_for users_page = refl
read-stands_for login_page = refl
read-stands_for audit_page = refl
read-stands_for clusters_page = refl
read-stands_for dashboard_audit = refl
read-stands_for (sidebar c) = refl
read-stands_for (topics_page c) = refl
read-stands_for (messages_topics c) = refl
read-stands_for (connectors_page c) = refl
read-stands_for (brokers_page c) = refl
read-stands_for (schemas_page c) = refl
read-stands_for (consumers_page c) = refl
read-stands_for (dashboard_health c) = refl
read-stands_for (dashboard_topics c) = refl
read-stands_for (dashboard_groups c) = refl
read-stands_for (alert_rules c) = refl
read-stands_for (command_palette b q c) = refl
read-stands_for (role_editor b) = refl
read-stands_for (produce_dialog b c) = refl
read-stands_for (cluster_drawer none) = refl
read-stands_for (cluster_drawer (some o)) = refl
read-stands_for (topic_drawer c none) = refl
read-stands_for (topic_drawer c (some o)) = refl
read-stands_for (messages_page c t s) = refl
read-stands_for (acls_page c s) =
    acl_key c (some_text (some s.resource_type_filter))
      (some_text (some (trim s.resource_name_filter)))
read-stands_for (schema_drawer c o) = schema_key c o
read-stands_for (alert_consumers c s) = refl
read-stands_for (alert_events c s) = refl

-- Wherever two components of the console read under one key, they read the same: for no cluster, topic,
-- filter or search is an answer stored where another request's would be looked up.
pub fetch_of_key : (s t : Site) → (read s).key ≡ (read t).key → (read s).fetch ≡ (read t).fetch
fetch_of_key s t h = sym (read-stands_for s) ∙ ap stands_for h ∙ read-stands_for t
