-- ===== src/Api/Client/Clusters.antt =====
-- `api`: clusters, brokers, topics, messages, consumer groups and the audit log.
use Prim.Native.String.{◌++◌}
use kafkaesque.Prelude.{List, [], ◌∷◌, String}
use kafkaesque.Api.Json.{Json, str, object, optional}
use kafkaesque.Api.Types.{ClusterCreateBody}
use kafkaesque.Api.Encode.{encode_uri_component, search_params}
use kafkaesque.Api.Transport.{Request}
use kafkaesque.Api.Client.Base.{fetch, poke, send, discard, opt_text, opt_bool, in_cluster}

unfoldable pub clusters : Request
clusters = fetch "/api/v1/clusters"

unfoldable pub get_cluster : String → Request
get_cluster id = fetch ("/api/v1/clusters/" ++ id)

unfoldable pub cluster_body : ClusterCreateBody → Json
cluster_body b = object (
    ("name", str b.name)
    ∷ ("bootstrap_servers", str b.bootstrap_servers)
    ∷ ("environment", str b.environment)
    ∷ optional "tls" (opt_bool b.tls) (
        optional "sasl_mechanism" (opt_text b.sasl_mechanism) (
          optional "sasl_username" (opt_text b.sasl_username) (
            optional "sasl_password" (opt_text b.sasl_password) (
              optional "kafka_version" (opt_text b.kafka_version) (
                optional "schema_registry_url" (opt_text b.schema_registry_url)
                  (optional "connect_url" (opt_text b.connect_url) [])))))))

unfoldable pub create_cluster : ClusterCreateBody → Request
create_cluster b = send "/api/v1/clusters" (cluster_body b)

unfoldable pub delete_cluster : String → Request
delete_cluster id = discard ("/api/v1/clusters/" ++ id)

unfoldable pub test_connection : ClusterCreateBody → Request
test_connection b = send "/api/v1/clusters/test-connection" (cluster_body b)

unfoldable pub test_cluster : String → Request
unfolding in_cluster
test_cluster id = poke (in_cluster id "/test")

unfoldable pub cluster_health : String → Request
unfolding in_cluster
cluster_health id = fetch (in_cluster id "/health")

unfoldable pub brokers : String → Request
unfolding in_cluster
brokers id = fetch (in_cluster id "/brokers")

unfoldable pub topics : String → Request
unfolding in_cluster
topics id = fetch (in_cluster id "/topics")

unfoldable pub create_topic : String → Json → Request
unfolding in_cluster
create_topic id body = send (in_cluster id "/topics") body

unfoldable pub delete_topic : String → String → Request
unfolding in_cluster
delete_topic id topic = discard (in_cluster id ("/topics/" ++ encode_uri_component topic))

unfoldable pub partitions : String → String → Request
unfolding in_cluster
partitions id topic =
    fetch (in_cluster id ("/topics/" ++ (encode_uri_component topic ++ "/partitions")))

unfoldable pub messages : String → String → List (String × String) → Request
unfolding in_cluster
messages id topic params = fetch (
    in_cluster id
      ("/topics/" ++ (encode_uri_component topic ++ ("/messages?" ++ search_params params))))

unfoldable pub publish : String → String → Json → Request
unfolding in_cluster
publish id topic body =
    send (in_cluster id ("/topics/" ++ (encode_uri_component topic ++ "/messages"))) body

unfoldable pub consumer_groups : String → Request
unfolding in_cluster
consumer_groups id = fetch (in_cluster id "/consumer-groups")

unfoldable pub audit : Request
audit = fetch "/api/v1/audit"
