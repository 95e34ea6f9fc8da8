-- ===== src/Dashboard/Readings.antt =====
-- What the dashboard gives to its history (frontend/src/pages/DashboardPage.tsx). A query that has no
-- answer yet is `none`.
pub mod Laws
use kafkaesque.Api.Types.{ConsumerGroup}
use kafkaesque.Dashboard.{Counts, total_lag}
use kafkaesque.Metrics.{Reading, Activity, render}
use kafkaesque.Prelude.{[], ◌∷◌, max, or_else, List, Option, String, ℕ, none, some}

-- `reduce` over the groups.
max_lag_from : ℕ → List ConsumerGroup → ℕ
max_lag_from m [] = m
max_lag_from m (g ∷ gs) = max_lag_from (max m g.max_lag) gs

unfoldable pub max_lag : List ConsumerGroup → ℕ
unfolding max_lag_from
max_lag gs = max_lag_from 0 gs

-- `Number(h?.…) || 0` of the answer of the cluster's health.
unfoldable pub counts_of : Option Counts → Counts
counts_of health = or_else health (record {
  brokers = 0;
  topics = 0;
  partitions = 0;
  groups = 0;
  under_replicated = 0;
  offline = 0;
})

-- The argument `data` of `useActivityHistory`.
unfoldable pub reading : Option Counts → Option (List ConsumerGroup) → Reading
reading health groups = record {
  total_lag = total_lag (or_else groups []);
  max_lag = max_lag (or_else groups []);
  under_replicated = (counts_of health).under_replicated;
  offline_partitions = (counts_of health).offline;
}

-- A render of the dashboard for a cluster.
unfoldable pub render_dashboard :
    (ℕ → String) → ℕ → String → Option Counts → Option (List ConsumerGroup) → Activity → Activity
render_dashboard format_time now cluster health groups a =
    render format_time now (some cluster) (some (reading health groups)) a
