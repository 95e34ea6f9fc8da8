-- ===== src/Metrics/Pause.antt =====
-- When the activity history takes no reading.
use kafkaesque.Metrics.{
  Activity, Reading, render, sample, record_reading, snapshot, follow_cluster, fresh,
  min_interval_ms, ActivitySnapshot,
}
use kafkaesque.Prelude.Texts.{is_blank}
use kafkaesque.Prelude.{
  arith, refl, eq_refl, Bool-cases, inl, inr, [], ◌∷◌, ◌+◌, ◌<◌, ◌≡◌, false, true, List, Option,
  String, ℕ, none, some, ltb, eqb,
}

-- The history of a cluster whose last snapshot was taken at a time.
abbrev pub held : String → ℕ → List ActivitySnapshot → Activity
held cluster last ps = record { history = ps; last_ts = last; last_cluster = some cluster }

-- The first render for a cluster takes a snapshot.
pub render-first :
    (format_time : ℕ → String) (now : ℕ) (cluster : String) (r : Reading)
    → is_blank cluster ≡ false
    → render format_time now (some cluster) (some r) fresh
      ≡ held cluster now (
          record {
            ts = now;
            label = format_time now;
            total_lag = r.total_lag;
            max_lag = r.max_lag;
            under_replicated = r.under_replicated;
            offline_partitions = r.offline_partitions;
          }
          ∷ [])
unfolding render sample record_reading snapshot follow_cluster fresh
render-first format_time now cluster r e = rw e refl

-- Within the interval after a snapshot, a render for the same cluster changes nothing.
pub render-held :
    (format_time : ℕ → String) (now last : ℕ) (cluster : String) (r : Option Reading)
    (ps : List ActivitySnapshot)
    → 0 < last
    → now < last + min_interval_ms
    → render format_time now (some cluster) r (held cluster last ps) ≡ held cluster last ps
unfolding render sample record_reading follow_cluster
render-held format_time now last cluster none ps p h = rw (eq_refl cluster) refl
render-held format_time now last cluster (some r) ps p h =
    let started : eqb last 0 ≡ false = ground arith in
    let early : ltb now (last + min_interval_ms) ≡ true = ground arith in
    rw (eq_refl cluster) (elim (Bool-cases (is_blank cluster)) [
      | inl e ↦ rw e refl
      | inr e ↦ rw (e, started, early) refl
    ])
