-- ===== src/Examples/Shell.antt =====
-- The selected cluster, the dialogs and the toasts.
use kafkaesque.Prelude.{
  length, any, if◌then◌else◌, refl, [], false, none, or_else, some, true, ◌∷◌, ◌≡◌,
}
use kafkaesque.Api.Types.{Cluster}
use kafkaesque.Context.Clusters.{has_id, Query, Selection, cluster_ready, initial, loaded, sync}
use kafkaesque.Context.Clusters.Laws.{
  sync-ready, changes-initial, sync-cleared, chosen, synced, changes,
}
use kafkaesque.Context.Toasts.Laws.{
  all_fired-on_events, all_fired, no_toasts, added, fired, closed, on_events,
}
use kafkaesque.Ui.{success, error}

abbrev local : Cluster
local = record {
  id = "c1";
  name = "local";
  bootstrap_servers = "kafka:9092";
  environment = "DEVELOPMENT";
  status = "CONNECTED";
  kafka_version = none;
  last_error = none;
  schema_registry_url = none;
  connect_url = none;
  tls = none;
  sasl_mechanism = none;
  last_connected_at = none;
  created_at = none;
}

abbrev found : Query
found = record { is_loading = false; items = some (local ∷ []) }

abbrev lost : Query
lost = record { is_loading = false; items = none }

abbrev remembered : Selection
remembered = record { cluster_id = "gone"; stored = some "gone" }

sync-ready_example :
    (cluster_ready found (sync found remembered) ≡ true)
    × ((sync found remembered).cluster_id
        ≡ (if any (has_id "gone") (local ∷ []) then "gone" else "c1"))
sync-ready_example = sync-ready found remembered local [] refl refl

lost-loaded : loaded lost ≡ []
unfolding loaded
lost-loaded = refl

sync-cleared_example :
    ((sync lost remembered).cluster_id ≡ "")
    × (or_else (sync lost remembered).stored "" ≡ "")
    × (cluster_ready lost (sync lost remembered) ≡ false)
sync-cleared_example = sync-cleared lost remembered refl refl lost-loaded

changes-initial_example :
    let end = changes (synced found ∷ chosen "c1" ∷ []) (initial (some "gone")) in
    initial end.stored ≡ end
changes-initial_example = changes-initial (some "gone") (synced found ∷ chosen "c1" ∷ [])

all_fired-on_events_example :
    let ts =
      on_events
        (added "a" success "Saved" ∷ added "b" error "Lost" ∷ closed "a" ∷ fired ∷ [])
        no_toasts in
    (all_fired (length ts.timers) ts).shown ≡ []
all_fired-on_events_example =
    all_fired-on_events
      (added "a" success "Saved" ∷ added "b" error "Lost" ∷ closed "a" ∷ fired ∷ [])
