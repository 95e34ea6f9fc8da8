-- ===== src/Dashboard/Health.antt =====
-- The cluster's health and load (frontend/src/components/dashboard/ClusterHealthPanel.tsx and
-- ClusterLoad.tsx), with the numbers that the dashboard gives them.
pub mod Laws
use kafkaesque.Prelude.Decimal.{to_text}
use kafkaesque.Dashboard.{healthy_partitions, Counts}
use kafkaesque.Prelude.{
  [], false, ◌/◌, ◌==◌, ◌∷◌, eqb, leb, ltb, zero, ◌+◌, Bool, List, if◌then◌else◌, max, min, suc,
  ◌*◌, ◌-◌, String, ℕ,
}
use Prim.Native.String.{◌++◌ as ◌<>◌}
use kafkaesque.Prelude.Texts.{to_upper, ℤ, pos, negsuc}

abbrev negative : ℕ → ℤ
negative zero = pos 0
negative (suc n) = negsuc n

-- `Math.max`, `Math.min` and a comparison, with a natural number.
abbrev max_int : ℤ → ℕ → ℤ
max_int (pos a) n = pos (max a n)
max_int (negsuc a) n = pos n

abbrev min_int : ℤ → ℕ → ℤ
min_int (pos a) n = pos (min a n)
min_int (negsuc a) n = negsuc a

abbrev reaches : ℤ → ℕ → Bool
reaches (pos a) n = leb n a
reaches (negsuc a) n = false

abbrev show_int : ℤ → String
show_int (pos a) = to_text a
show_int (negsuc a) = "-" <> to_text (suc a)

-- `Math.round` of the quotient of two natural numbers, the second one not 0.
abbrev round_ratio : ℕ → ℕ → ℕ
round_ratio a b = (2 * a + b) / (2 * b)

-- `Math.round((partitionCount - underReplicated) / partitionCount * 100)`, which is negative where
-- more partitions are under-replicated than there are: then a half rounds up, towards 0.
unfoldable pub replication_pct : Counts → ℤ
replication_pct c =
    if eqb c.partitions 0
    then pos 100
    else if leb c.under_replicated c.partitions
    then pos (round_ratio ((c.partitions - c.under_replicated) * 100) c.partitions)
    else negative
        ((200 * (c.under_replicated - c.partitions) + c.partitions - 1) / (2 * c.partitions))

-- `Math.min(95, Math.round(12 + partitionCount * 0.15 + topicCount * 1.2))`
unfoldable pub disk_usage_pct : Counts → ℕ
disk_usage_pct c = min 95 (round_ratio (1200 + 15 * c.partitions + 120 * c.topics) 100)

unfoldable pub is_healthy : String → Bool
is_healthy status = to_upper status == "HEALTHY"

unfoldable pub health_pct : String → ℤ → ℤ
health_pct status r = if is_healthy status then max_int r 100 else min_int r 60

-- The rest of the ring, `Math.max(0, 100 - pct)`.
unfoldable pub rest_pct : ℤ → ℕ
rest_pct (pos n) = 100 - n
rest_pct (negsuc n) = 101 + n

pub record HealthRow : Type 0 where
  pub label : String
  pub value : String
  pub ok : Bool

-- All brokers that the cluster reports count as online.
unfoldable pub health_rows : Counts → List HealthRow
health_rows c =
    let r = replication_pct c in
    let disk = disk_usage_pct c in
    record {
      label = "Brokers";
      value = to_text c.brokers <> ("/" <> (to_text c.brokers <> " online"));
      ok = ltb 0 c.brokers;
    }
    ∷ record {
      label = "Partitions";
      value = to_text (healthy_partitions c) <> " healthy";
      ok = ltb 0 (healthy_partitions c);
    }
    ∷ record { label = "Replication"; value = show_int r <> "%"; ok = reaches r 100 }
    ∷ record { label = "Disk Usage"; value = to_text disk <> "% used"; ok = ltb disk 80 }
    ∷ []

-- `Math.min(95, Math.round(partitionsPerBroker / 100 * 100))`
unfoldable pub partition_load : Counts → ℕ
partition_load c = if eqb c.brokers 0 then 0 else min 95 (round_ratio c.partitions c.brokers)

unfoldable pub replication_load : Counts → ℕ
replication_load c = if ltb 0 c.under_replicated then min 95 (c.under_replicated * 12) else 8

module _ (log_load : ℕ → ℕ) where
  -- `log_load n` is `Math.round(Math.log10(n) * 18)`.
  unfoldable pub lag_load : ℕ → ℕ
  lag_load total_lag = min 95 (log_load (total_lag + 1))
