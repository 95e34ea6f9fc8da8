-- ===== src/Queries/Shell.antt =====
-- The queries of the providers, of the layout and of the dialogs, and those of the pages that are about
-- no cluster.
use kafkaesque.Prelude.{Bool, ◌&&◌, some, ◌∷◌, [], String}
use kafkaesque.Prelude.Texts.{some_text}
use kafkaesque.Queries.{Query, text, query, given}
use kafkaesque.Api.Client.{
  clusters, cluster_health, audit, search, permissions, topics, roles, users, auth_config,
}

-- `ClusterProvider`
unfoldable pub clusters_query : Query
clusters_query = query (text "clusters" ∷ []) clusters

-- `AppLayout`
unfoldable pub sidebar_query : String → Query
sidebar_query cluster =
    record (query (text "health" ∷ text cluster ∷ text "sidebar" ∷ []) (cluster_health cluster)) {
      enabled = given cluster;
      every = some 60000;
    }

-- `NotificationBell`
unfoldable pub bell_query : Query
bell_query = record (query (text "audit" ∷ text "notifications" ∷ []) audit) { every = some 60000 }

-- `CommandPalette`; `debounced.length > 0`
unfoldable pub search_query : Bool → String → String → Query
search_query open_now debounced cluster =
    record (query (text "search" ∷ text debounced ∷ text cluster ∷ [])
      (search debounced (some_text (some cluster)))) { enabled = open_now && given debounced }

-- `RoleEditorDialog`
unfoldable pub permissions_query : Bool → Query
permissions_query open_now = record (query (text "permissions" ∷ []) permissions) {
  enabled = open_now;
}

-- `ProduceMessageDialog`
unfoldable pub produce_query : Bool → String → Query
produce_query open_now cluster =
    record (query (text "topics" ∷ text cluster ∷ []) (topics cluster)) {
      enabled = given cluster && open_now;
    }

-- `useRoles`
unfoldable pub roles_query : Query
roles_query = query (text "roles" ∷ []) roles

-- `RolesPage`
unfoldable pub roles_page_query : Query
roles_page_query = query (text "roles" ∷ []) roles

-- `UsersPage`
unfoldable pub users_query : Query
users_query = query (text "users" ∷ []) users

-- `LoginPage`
unfoldable pub auth_config_query : Query
auth_config_query = query (text "auth-config" ∷ []) auth_config

-- `AuditPage`
unfoldable pub audit_query : Query
audit_query = query (text "audit" ∷ []) audit
