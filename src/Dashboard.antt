-- ===== src/Dashboard.antt =====
-- The dashboard (frontend/src/pages/DashboardPage.tsx) and its widgets
-- (frontend/src/components/dashboard). Percentages are computed exactly, not in binary fractions.
-- Times are milliseconds since 1970; what `Date` makes of a text is the argument `time_of`, `none` for
-- a text that is no time.
use kafkaesque.Prelude.Decimal.{to_text}
use kafkaesque.Ui.Table.{failed, rows, skeleton, Body, clickable}
use kafkaesque.Api.Types.{ConsumerGroup, Topic}
use kafkaesque.Ui.{invalidate, Effect}
use kafkaesque.Metrics.{ActivitySnapshot}
use kafkaesque.Prelude.{
  map, none, eqb, length, ◌/◌, ◌||◌, [], all, ltb, max, not, some, ◌+◌, false, if◌then◌else◌, keep,
  true, ◌-◌, ◌∷◌, Bool, List, Option, String, ℕ,
}
pub mod Activity
pub mod Health
pub mod Uptime
pub mod Readings
pub mod Topics
use Prim.Native.String.{◌++◌ as ◌<>◌}

-- `HealthData`, after `Number(…) || 0` of each count.
pub record Counts : Type 0 where
  pub brokers : ℕ
  pub topics : ℕ
  pub partitions : ℕ
  pub groups : ℕ
  pub under_replicated : ℕ
  pub offline : ℕ

-- The state: whether a refresh is running.
abbrev pub start : Bool
start = false

-- `handleRefresh` up to its `await`, and after it.
unfoldable pub press_refresh : String → Bool → Bool → Bool × List Effect
press_refresh cluster fetching refreshing =
    if clickable false (refreshing || fetching)
    then (
      true,
      invalidate ("health" ∷ cluster ∷ [])
          ∷ invalidate ("topics" ∷ cluster ∷ [])
          ∷ invalidate ("consumerGroups" ∷ cluster ∷ [])
          ∷ invalidate ("audit" ∷ "dashboard" ∷ [])
          ∷ [],
    )
    else (refreshing, [])

unfoldable pub refreshed : Bool → Bool × List Effect
refreshed refreshing = (false, [])

-- `times.length ? Math.max(...times) : Date.now()`, of the times that are not 0.
largest : ℕ → List ℕ → ℕ
largest m [] = m
largest m (t ∷ ts) = largest (max m t) ts

unfoldable pub last_updated : ℕ → List ℕ → ℕ
unfolding largest
last_updated now times = elim (keep (λ t. not (eqb t 0)) times) [ [] ↦ now | t ∷ ts ↦ largest t ts ]

-- `formatLastUpdated`; `clock` is what `toLocaleTimeString` prints.
unfoldable pub format_last_updated : (ℕ → String) → ℕ → ℕ → String
format_last_updated clock now ms =
    let diff = now - ms in
    if ltb diff 10000
    then "just now"
    else if ltb diff 60000
    then to_text (diff / 1000) <> "s ago"
    else if ltb diff 3600000
    then to_text (diff / 60000) <> "m ago"
    else clock ms

-- `Math.max(0, partitionCount - offline)`
unfoldable pub healthy_partitions : Counts → ℕ
healthy_partitions c = c.partitions - c.offline

-- `reduce` over the groups, 0 without an answer.
unfoldable pub total_lag : List ConsumerGroup → ℕ
total_lag [] = 0
total_lag (g ∷ gs) = g.total_lag + total_lag gs

-- The topics that are not internal, or the count of the cluster's health without an answer.
unfoldable pub active_topics : Counts → Option (List Topic) → ℕ
active_topics c none = c.topics
active_topics c (some ts) = length (keep (λ t. not t.internal) ts)

pub data SparkKey : Type 0 where
  total_lag_key max_lag_key under_replicated_key offline_key : SparkKey

pub record Metric : Type 0 where
  pub label : String
  pub value : ℕ
  pub subtitle : String
  pub spark_key : SparkKey

abbrev metric : String → ℕ → String → SparkKey → Metric
metric label value subtitle key = record {
  label = label;
  value = value;
  subtitle = subtitle;
  spark_key = key;
}

unfoldable pub metrics : Counts → Option (List Topic) → List Metric
metrics c topics =
    metric "Brokers" c.brokers (to_text c.brokers <> " online") under_replicated_key
    ∷ metric "Topics" c.topics (to_text (active_topics c topics) <> " active") total_lag_key
    ∷ metric "Partitions" c.partitions "Total" under_replicated_key
    ∷ metric "Consumer Groups" c.groups (to_text c.groups <> " active") max_lag_key
    ∷ metric "Under-Replicated" c.under_replicated
        (if eqb c.under_replicated 0 then "None" else "Needs attention") under_replicated_key
    ∷ metric "Offline Partitions" c.offline (if eqb c.offline 0 then "Healthy" else "Critical")
        offline_key
    ∷ []

-- `sparklineFromActivity`
abbrev spark_value : SparkKey → ActivitySnapshot → ℕ
spark_value total_lag_key p = p.total_lag
spark_value max_lag_key p = p.max_lag
spark_value under_replicated_key p = p.under_replicated
spark_value offline_key p = p.offline_partitions

abbrev same_values : ℕ → List ℕ
same_values v = v ∷ v ∷ v ∷ v ∷ v ∷ v ∷ v ∷ v ∷ []

-- The line under a metric's value: its history, or eight times the value.
unfoldable pub spark : List ActivitySnapshot → Metric → List ℕ
spark history m =
    if ltb 1 (length history) then map (spark_value m.spark_key) history else same_values m.value

-- `isFlatSparkline`
unfoldable pub is_flat_sparkline : List ℕ → Bool
is_flat_sparkline [] = true
is_flat_sparkline (v ∷ vs) = all (λ d. eqb d v) (v ∷ vs)

-- What the page shows below its header.
unfoldable pub body : Bool → Option String → Counts → Option (List Topic) → Body Metric
body loading failure c topics =
    if loading
    then skeleton 6
    else elim failure [ none ↦ rows (metrics c topics) | some e ↦ failed e ]
