-- ===== src/Dashboard/Health/Laws.antt =====
-- The ring and the bars.
use kafkaesque.Prelude.Texts.{negsuc, pos, ℤ}
use kafkaesque.Dashboard.Health.{
  replication_load, partition_load, disk_usage_pct, is_healthy, replication_pct, health_pct,
  rest_pct,
}
use kafkaesque.Dashboard.{Counts}
use kafkaesque.Prelude.{inr, inl, refl, Bool-cases, arith, ◌≤◌, false, true, ◌↔◌, ◌≡◌, String}

healthy_rest :
    (status : String) (r : ℤ) → is_healthy status ≡ true → rest_pct (health_pct status r) ≡ 0
unfolding health_pct rest_pct
healthy_rest status (pos n) h = rw h (omega arith)
healthy_rest status (negsuc n) h = rw h refl

unhealthy_rest :
    (status : String) (r : ℤ) → is_healthy status ≡ false → 40 ≤ rest_pct (health_pct status r)
unfolding health_pct rest_pct
unhealthy_rest status (pos n) h = rw h (omega arith)
unhealthy_rest status (negsuc n) h = rw h (omega arith)

-- Whatever the counts are, the ring of the cluster's health is closed exactly when the status is the
-- healthy one; else more than a third of it stays open. The estimate of the disk
-- and the bars of the partitions and the replicas end at 95 percent.
pub rest_pct-health_pct :
    (status : String) (c : Counts)
    → ((rest_pct (health_pct status (replication_pct c)) ≡ 0) ↔ (is_healthy status ≡ true))
      × ((40 ≤ rest_pct (health_pct status (replication_pct c))) ↔ (is_healthy status ≡ false))
      × (disk_usage_pct c ≤ 95)
      × (partition_load c ≤ 95)
      × (replication_load c ≤ 95)
unfolding disk_usage_pct partition_load replication_load
rest_pct-health_pct status c = elim (Bool-cases (is_healthy status)) [
  | inl e ↦ (
    (λ h. e, λ h. healthy_rest status _ e),
    (
      λ h. let rest = healthy_rest status (replication_pct c) e in absurd (omega arith),
      λ h. absurd (cc),
    ),
    omega arith,
    ground arith,
    ground arith,
  )
  | inr e ↦ (
    (
      λ h. let rest = unhealthy_rest status (replication_pct c) e in absurd (omega arith),
      λ h. absurd (cc),
    ),
    (λ h. e, λ h. unhealthy_rest status _ e),
    omega arith,
    ground arith,
    ground arith,
  )
]
