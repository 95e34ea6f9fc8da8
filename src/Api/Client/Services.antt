-- ===== src/Api/Client/Services.antt =====
-- `api`: search, schemas, connectors, ACLs, alerts and the live tail.
use Prim.Native.String.{◌++◌}
use kafkaesque.Prelude.{
  ℕ, Bool, Option, none, some, List, [], ◌∷◌, String, if◌then◌else◌, or_else, eqb,
}
use kafkaesque.Prelude.Texts.{is_blank}
use kafkaesque.Prelude.Decimal.{to_text}
use kafkaesque.Api.Json.{Json, str, object, optional}
use kafkaesque.Api.Types.{AclInfo}
use kafkaesque.Api.Encode.{encode_uri_component, search_params}
use kafkaesque.Api.Transport.{Request, delete}
use kafkaesque.Api.Client.Base.{fetch, poke, send, discard, opt_text, opt_bool, in_cluster}

-- `if (x) params.set(k, x)`: an empty text is left out.
abbrev when_given : String → Option String → List (String × String)
when_given k none = []
when_given k (some s) = if is_blank s then [] else (k, s) ∷ []

unfoldable pub search : String → Option String → Request
search q cluster_id =
    fetch ("/api/v1/search?" ++ search_params (("q", q) ∷ when_given "cluster_id" cluster_id))

unfoldable pub schemas : String → Request
unfolding in_cluster
schemas id = fetch (in_cluster id "/schemas")

abbrev version_query : Option ℕ → String
version_query none = ""
version_query (some v) = if eqb v 0 then "" else "?version=" ++ to_text v

unfoldable pub get_schema : String → String → Option ℕ → Request
unfolding in_cluster
get_schema id subject version =
    fetch (in_cluster id ("/schemas/" ++ (encode_uri_component subject ++ version_query version)))

unfoldable pub register_schema : String → String → String → Option String → Request
unfolding in_cluster
register_schema id subject schema schema_type =
    send (in_cluster id ("/schemas/" ++ encode_uri_component subject))
      (object (("schema", str schema) ∷ optional "schema_type" (opt_text schema_type) []))

unfoldable pub connectors : String → Request
unfolding in_cluster
connectors id = fetch (in_cluster id "/connectors")

abbrev text_fields : List (String × String) → List (String × Json)
text_fields [] = []
text_fields ((k, v) ∷ r) = (k, str v) ∷ text_fields r

unfoldable pub create_connector : String → String → List (String × String) → Request
unfolding in_cluster
create_connector id name config =
    send (in_cluster id "/connectors")
      (object (("name", str name) ∷ ("config", object (text_fields config)) ∷ []))

unfoldable pub delete_connector : String → String → Request
unfolding in_cluster
delete_connector id name = discard (in_cluster id ("/connectors/" ++ encode_uri_component name))

unfoldable pub restart_connector : String → String → Request
unfolding in_cluster
restart_connector id name =
    poke (in_cluster id ("/connectors/" ++ (encode_uri_component name ++ "/restart")))

-- The two filters of `api.acls`, as the query that is sent.
abbrev acl_query : List (String × String) → String
acl_query [] = ""
acl_query (p ∷ ps) = "?" ++ search_params (p ∷ ps)

abbrev both : List (String × String) → List (String × String) → List (String × String)
both [] ys = ys
both (x ∷ xs) ys = x ∷ both xs ys

unfoldable pub acls : String → Option String → Option String → Request
unfolding in_cluster
acls id resource_type resource_name = fetch (
    in_cluster id (
      "/acls"
      ++ acl_query (
          both (when_given "resource_type" resource_type)
            (when_given "resource_name" resource_name))))

unfoldable pub acl_body : AclInfo → Json
acl_body a = object (
    ("principal", str a.principal)
    ∷ ("host", str a.host)
    ∷ ("operation", str a.operation)
    ∷ ("permission_type", str a.permission_type)
    ∷ ("resource_type", str a.resource_type)
    ∷ ("resource_name", str a.resource_name)
    ∷ ("pattern_type", str a.pattern_type)
    ∷ [])

unfoldable pub create_acl : String → AclInfo → Request
unfolding in_cluster
create_acl id a = send (in_cluster id "/acls") (acl_body a)

unfoldable pub delete_acl : String → AclInfo → Request
unfolding in_cluster
delete_acl id a = record { method = delete; path = in_cluster id "/acls"; body = some (acl_body a) }

unfoldable pub alert_rules : String → Request
unfolding in_cluster
alert_rules id = fetch (in_cluster id "/alert-rules")

unfoldable pub create_alert_rule : String → String → String → Json → Option Bool → Request
unfolding in_cluster
create_alert_rule id name rule_type threshold enabled = send (in_cluster id "/alert-rules") (
    object (
      ("name", str name)
      ∷ ("rule_type", str rule_type)
      ∷ ("threshold", threshold)
      ∷ optional "enabled" (opt_bool enabled) []))

unfoldable pub delete_alert_rule : String → String → Request
unfolding in_cluster
delete_alert_rule id rule_id = discard (in_cluster id ("/alert-rules/" ++ rule_id))

unfoldable pub alert_events : Option String → Request
alert_events none = fetch "/api/v1/alerts/events"
alert_events (some id) =
    fetch ("/api/v1/alerts/events" ++ (if is_blank id then "" else "?cluster_id=" ++ id))

unfoldable pub resolve_alert_event : String → Request
resolve_alert_event id = poke ("/api/v1/alerts/events/" ++ (id ++ "/resolve"))

unfoldable pub evaluate_alerts : String → Request
unfolding in_cluster
evaluate_alerts id = poke (in_cluster id "/alert-rules/evaluate")

-- The stored token, whether the page's protocol is "https:", and the page's host come first.
unfoldable pub live_tail_url : Option String → Bool → String → String → String → Option ℕ → String
unfolding in_cluster
live_tail_url token secure host id topic partition =
    (if secure then "wss:" else "ws:")
    ++ ("//"
        ++ (host
            ++ in_cluster id (
                "/topics/"
                ++ (encode_uri_component topic
                    ++ ("/live?"
                        ++ search_params (
                            ("token", or_else token "") ∷ elim partition [
                              | none ↦ []
                              | some p ↦ ("partition", to_text p) ∷ []
                            ]))))))
