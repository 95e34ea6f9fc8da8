-- ===== src/Context/Clusters.antt =====
-- `ClusterProvider` (frontend/src/context/ClusterContext.tsx): the selected cluster, kept in step with
-- the loaded list and with the entry `sf_cluster` of localStorage.
use kafkaesque.Prelude.Texts.{is_blank}
use kafkaesque.Api.Types.{Cluster}
use kafkaesque.Prelude.{
  any, some, ◌∷◌, [], find, is_empty, none, ◌&&◌, ◌==◌, is_some, not, or_else, Bool, List, Option,
  String, if◌then◌else◌,
}
pub mod Laws

-- `cluster_id` is the state, `stored` the entry of localStorage.
pub record Selection : Type 0 where
  pub cluster_id : String
  pub stored : Option String

-- The query's answer so far: `items` is `data?.items`.
pub record Query : Type 0 where
  pub is_loading : Bool
  pub items : Option (List Cluster)

unfoldable pub initial : Option String → Selection
initial stored = record { cluster_id = or_else stored ""; stored = stored }

unfoldable pub loaded : Query → List Cluster
loaded q = or_else q.items []

unfoldable pub set_cluster_id : String → Selection → Selection
set_cluster_id id s = record { cluster_id = id; stored = if is_blank id then none else some id }

abbrev pub has_id : String → Cluster → Bool
has_id id c = c.id == id

-- The effect on `[isLoading, clusters]`.
sync_with : List Cluster → Selection → Selection
sync_with [] s = record {
  cluster_id = "";
  stored = if is_blank s.cluster_id then s.stored else none;
}
sync_with (c ∷ cs) s =
    if any (has_id s.cluster_id) (c ∷ cs)
    then s
    else record { cluster_id = c.id; stored = some c.id }

unfoldable pub sync : Query → Selection → Selection
unfolding sync_with loaded
sync q s = if q.is_loading then s else sync_with (loaded q) s

unfoldable pub selected_cluster : Query → Selection → Option Cluster
selected_cluster q s = find (has_id s.cluster_id) (loaded q)

-- The value of the context.
unfoldable pub exposed_id : Query → Selection → String
exposed_id q s = if is_some (selected_cluster q s) then s.cluster_id else ""

unfoldable pub has_clusters : Query → Bool
has_clusters q = not (is_empty (loaded q))

unfoldable pub cluster_ready : Query → Selection → Bool
cluster_ready q s = not q.is_loading && has_clusters q && is_some (selected_cluster q s)
