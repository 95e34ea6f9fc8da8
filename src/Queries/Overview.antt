-- ===== src/Queries/Overview.antt =====
-- The queries of the dashboard and of the page of alerts, which are read again and again.
use kafkaesque.Prelude.{◌*◌, ℕ, some, none, ◌∷◌, [], String, if◌then◌else◌}
use kafkaesque.Api.Client.{
  cluster_health, topics, consumer_groups, audit, alert_rules, alert_events,
}
use kafkaesque.Pages.Alerts.{AlertsState}
use kafkaesque.Queries.{Query, text, query, given}

-- `REFRESH_SEC * 1000`
abbrev pub refresh_sec : ℕ
refresh_sec = 10

unfoldable pub health_query : String → Query
health_query cluster = record (query (text "health" ∷ text cluster ∷ []) (cluster_health cluster)) {
  enabled = given cluster;
  every = some (refresh_sec * 1000);
}

unfoldable pub dashboard_topics_query : String → Query
dashboard_topics_query cluster =
    record (query (text "topics" ∷ text cluster ∷ []) (topics cluster)) {
      enabled = given cluster;
      every = some (refresh_sec * 1000);
    }

unfoldable pub groups_query : String → Query
groups_query cluster =
    record (query (text "consumerGroups" ∷ text cluster ∷ []) (consumer_groups cluster)) {
      enabled = given cluster;
      every = some (refresh_sec * 1000);
    }

unfoldable pub dashboard_audit_query : Query
dashboard_audit_query = record (query (text "audit" ∷ text "dashboard" ∷ []) audit) {
  every = some (refresh_sec * 1000);
}

-- `AlertsContent`
unfoldable pub alert_consumers_query : String → AlertsState → Query
alert_consumers_query cluster s =
    record (query (text "consumers" ∷ text cluster ∷ text "alerts" ∷ [])
      (consumer_groups cluster)) {
        enabled = given cluster;
        every = some (if s.live then 5000 else 15000);
      }

unfoldable pub rules_query : String → Query
rules_query cluster =
    record (query (text "alert-rules" ∷ text cluster ∷ []) (alert_rules cluster)) {
      enabled = given cluster;
    }

unfoldable pub events_query : String → AlertsState → Query
events_query cluster s =
    record (query (text "alert-events" ∷ text cluster ∷ []) (alert_events (some cluster))) {
      enabled = given cluster;
      every = if s.live then some 5000 else none;
    }
