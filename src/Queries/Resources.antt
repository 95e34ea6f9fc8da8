-- ===== src/Queries/Resources.antt =====
-- The queries of the pages about the resources of a cluster.
use kafkaesque.Prelude.{◌&&◌, false, none, some, Option, ◌∷◌, [], String, or_else}
use kafkaesque.Prelude.Texts.{some_text, trim}
use kafkaesque.Api.Types.{Cluster, Topic}
use kafkaesque.Api.Client.{
  clusters, get_cluster, topics, partitions, messages, connectors, brokers, schemas, get_schema,
  consumer_groups,
}
use kafkaesque.Pages.Messages.{Messages, query_params}
use kafkaesque.Pages.Acls.{AclsState, query_request}
use kafkaesque.Queries.{Key, Query, text, absent, filters, query, given, opt_key}

-- `ClustersPage`
unfoldable pub clusters_page_query : Query
clusters_page_query = query (text "clusters" ∷ []) clusters

-- `viewTarget!.id` throws where no cluster is viewed.
unfoldable pub cluster_query : Option Cluster → Query
cluster_query none = record {
  key = text "cluster" ∷ absent ∷ [];
  fetch = none;
  enabled = false;
  every = none;
}
cluster_query (some c) = record (query (text "cluster" ∷ text c.id ∷ []) (get_cluster c.id)) {
  enabled = given c.id;
}

-- `TopicsContent`
unfoldable pub topics_query : String → Query
topics_query cluster = record (query (text "topics" ∷ text cluster ∷ []) (topics cluster)) {
  enabled = given cluster;
}

unfoldable pub partitions_query : String → Option Topic → Query
partitions_query cluster none = record {
  key = text "partitions" ∷ text cluster ∷ absent ∷ [];
  fetch = none;
  enabled = false;
  every = none;
}
partitions_query cluster (some t) =
    record (query (text "partitions" ∷ text cluster ∷ text t.name ∷ [])
      (partitions cluster t.name)) { enabled = given cluster && given t.name }

-- `MessagesContent`
unfoldable pub messages_topics_query : String → Query
messages_topics_query cluster =
    record (query (text "topics" ∷ text cluster ∷ []) (topics cluster)) { enabled = given cluster }

unfoldable pub messages_query : String → String → Messages → Query
messages_query cluster topic s =
    record (query
      (text "messages" ∷ text cluster ∷ text topic ∷ text s.partition ∷ text s.offset ∷ [])
      (messages cluster topic (query_params s))) { enabled = given cluster && given topic }

-- `ConnectContent`
unfoldable pub connectors_query : String → Query
connectors_query cluster =
    record (query (text "connectors" ∷ text cluster ∷ []) (connectors cluster)) {
      enabled = given cluster;
      every = some 10000;
    }

-- `BrokersContent`
unfoldable pub brokers_query : String → Query
brokers_query cluster = record (query (text "brokers" ∷ text cluster ∷ []) (brokers cluster)) {
  enabled = given cluster;
}

abbrev pub filter_key : Option String → Option String → Key
filter_key none none = absent
filter_key (some kind) name = filters (some kind) name
filter_key none (some name) = filters none (some name)

-- `queryParams` of `ACLsContent`: the filters that are given, or `undefined` where none is.
unfoldable pub acl_filters : AclsState → Key
acl_filters s =
    filter_key (some_text (some s.resource_type_filter))
      (some_text (some (trim s.resource_name_filter)))

unfoldable pub acls_query : String → AclsState → Query
acls_query cluster s =
    record (query (text "acls" ∷ text cluster ∷ acl_filters s ∷ []) (query_request cluster s)) {
      enabled = given cluster;
    }

-- `SchemasContent`
unfoldable pub schemas_query : String → Query
schemas_query cluster = record (query (text "schemas" ∷ text cluster ∷ []) (schemas cluster)) {
  enabled = given cluster;
}

-- `encodeURIComponent` makes "null" of `null`, where no subject is selected.
unfoldable pub schema_query : String → Option String → Query
schema_query cluster selected =
    record (query (text "schema" ∷ text cluster ∷ opt_key selected ∷ [])
      (get_schema cluster (or_else selected "null") none)) {
        enabled = given cluster && given (or_else selected "");
      }

-- `ConsumersContent`
unfoldable pub consumers_query : String → Query
consumers_query cluster =
    record (query (text "consumers" ∷ text cluster ∷ []) (consumer_groups cluster)) {
      enabled = given cluster;
    }
