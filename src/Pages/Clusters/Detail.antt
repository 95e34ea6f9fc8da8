-- ===== src/Pages/Clusters/Detail.antt =====
-- What the page of clusters shows of one (frontend/src/pages/ClustersPage.tsx).
use kafkaesque.Prelude.Texts.{some_text}
use kafkaesque.Pages.Clusters.{integrations, format_when, or_dash}
use kafkaesque.Api.Types.{Cluster}
use kafkaesque.Prelude.{[], ◌∷◌, List, Option, String, none, some}

module _ (locale_time : String → Option String) where
  -- Label and text of the fields of the drawer, `ClusterDetail`; the last error only if there is one.
  unfoldable pub cluster_detail : Cluster → List (String × String)
  cluster_detail c =
      ("Name", c.name)
      ∷ ("Environment", c.environment)
      ∷ ("Bootstrap servers", c.bootstrap_servers)
      ∷ ("Status", c.status)
      ∷ ("Kafka version", or_dash c.kafka_version)
      ∷ ("Last connected", format_when locale_time c.last_connected_at)
      ∷ ("Schema Registry", or_dash c.schema_registry_url)
      ∷ ("Kafka Connect URL", or_dash c.connect_url)
      ∷ elim (some_text c.last_error) [ none ↦ [] | some e ↦ ("Last error", e) ∷ [] ]

  -- The cells of a row: name, bootstrap, version, environment, status, last connected, integrations.
  unfoldable pub cluster_cells : Cluster → List String
  cluster_cells c =
      c.name
      ∷ c.bootstrap_servers
      ∷ or_dash c.kafka_version
      ∷ c.environment
      ∷ c.status
      ∷ format_when locale_time c.last_connected_at
      ∷ integrations c
      ∷ []
