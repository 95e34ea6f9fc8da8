-- ===== src/Examples/Monitoring.antt =====
-- Alerts, clusters and the dashboard.
use kafkaesque.Ui.{mutate}
use kafkaesque.Prelude.Texts.{before}
use kafkaesque.Pages.Clusters.Laws.{delete_entry}
use kafkaesque.Auth.Permissions.{wildcard, match_permission}
use kafkaesque.Dashboard.Topics.{partitions_of, slices}
use kafkaesque.Auth.Guards.{given, effective, can}
use kafkaesque.Api.Types.{Topic, AlertRule, Cluster, ConsumerGroup, User}
use kafkaesque.Pages.Alerts.{toggle_live, AlertsState, lowest_threshold}
use kafkaesque.Prelude.{
  not, keep, Memᴰ, Bool, [], refl, ◌≤◌, false, true, ℕ, ◌∷◌, ◌≡◌, List, String, length, none, some,
}
use kafkaesque.Dashboard.Topics.Laws as TopicsLaws
use kafkaesque.Pages.Alerts.Laws as AlertsLaws
use kafkaesque.Pages.Clusters.Laws as ClustersLaws
use kafkaesque.Pages.Clusters.{run, confirm_delete, press_remove, cluster_actions, ClustersState}
use kafkaesque.Dashboard.Topics.Laws.{values}
use kafkaesque.Api.Client.{evaluate_alerts, delete_cluster}

abbrev topic_of : String → ℕ → Bool → Topic
topic_of name n hidden = record {
  name = name;
  partitions = n;
  replication_factor = 1;
  internal = hidden;
}

abbrev six_topics : List Topic
six_topics =
    topic_of "a" 3 false
    ∷ topic_of "b" 12 false
    ∷ topic_of "c" 1 false
    ∷ topic_of "__offsets" 50 true
    ∷ topic_of "d" 6 false
    ∷ topic_of "e" 2 false
    ∷ []

slices_complete_example :
    (length (slices six_topics) ≤ 5)
    × (values (slices six_topics) ≡ partitions_of (keep (λ t. not t.internal) six_topics))
slices_complete_example = TopicsLaws.slices_complete six_topics

abbrev quiet : AlertsState
quiet = record {
  name = "";
  rule_type = "consumer_lag";
  threshold = "5";
  live = false;
  timer = none;
}

ticks-toggle_live_example :
    AlertsLaws.ticks "c1" 2 (toggle_live "c1" false quiet)
    ≡ AlertsLaws.replicate 2 (evaluate_alerts "c1")
ticks-toggle_live_example = AlertsLaws.ticks-toggle_live "c1" false 2 quiet refl refl

abbrev rule : AlertRule
rule = record {
  id = "r1";
  cluster_id = "c1";
  name = "lag";
  rule_type = "consumer_lag";
  threshold = 5;
  enabled = true;
  created_at = none;
}

abbrev late_group : ConsumerGroup
late_group = record {
  group_id = "g";
  state = "Stable";
  members = 1;
  topics = 1;
  total_lag = 9;
  max_lag = 7;
}

lowest_is_five : lowest_threshold (rule ∷ []) ≡ some 5
unfolding lowest_threshold
lowest_is_five = refl

abbrev reader : User
reader = record {
  id = "u4";
  email = "ray@example.org";
  display_name = "Ray";
  role = "VIEWER";
  is_active = none;
  last_login_at = none;
  password_changed_at = none;
  created_at = none;
  permissions = some ("cluster.read" ∷ []);
}

abbrev staging : Cluster
staging = record {
  id = "c9";
  name = "staging";
  bootstrap_servers = "kafka:9092";
  environment = "STAGING";
  status = "CONNECTED";
  kafka_version = none;
  last_error = none;
  schema_registry_url = none;
  connect_url = none;
  tls = none;
  sasl_mechanism = none;
  last_connected_at = none;
  created_at = none;
}

abbrev viewing : ClustersState
viewing = record { delete_target = none; view_target = some staging; edit_mode = false }

reader_reads : can (some reader) "cluster.read" ≡ true
unfolding can effective given match_permission
reader_reads = refl

reader_manages_none : can (some reader) "cluster.manage" ≡ false
unfolding can effective given match_permission wildcard before
reader_manages_none = refl

reader-deletes_example :
    (press_remove (some reader) viewing ≡ (viewing, []))
    × Memᴰ (delete_entry staging) (cluster_actions (some reader) staging)
    × ((confirm_delete false (run (delete_entry staging).click viewing).0).1
        ≡ mutate (delete_cluster "c9") ∷ [])
reader-deletes_example =
    ClustersLaws.reader-deletes (some reader) staging viewing reader_reads reader_manages_none
