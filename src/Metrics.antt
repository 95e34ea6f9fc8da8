-- ===== src/Metrics.antt =====
-- `useActivityHistory` (frontend/src/hooks/useMetricHistory.ts). Times are milliseconds since 1970. The
-- label that `formatTime` prints is a function of the time, and an argument.
use kafkaesque.Prelude.Texts.{is_blank}
use kafkaesque.Prelude.{
  ◌++◌, keep, last_n, any, ◌&&◌, eqb, length, ltb, not, ◌+◌, ◌==◌, false, if◌then◌else◌, leb, map,
  max, min, some, true, Bool, String, none, ◌*◌, ◌∷◌, List, Option, [], ℕ,
}
pub mod Window
pub mod Pause

pub record ActivitySnapshot : Type 0 where
  pub ts : ℕ
  pub label : String
  pub total_lag : ℕ
  pub max_lag : ℕ
  pub under_replicated : ℕ
  pub offline_partitions : ℕ

-- The values that the hook reads of its argument `data`, 0 for what is missing.
pub record Reading : Type 0 where
  pub total_lag : ℕ
  pub max_lag : ℕ
  pub under_replicated : ℕ
  pub offline_partitions : ℕ

abbrev pub max_points : ℕ
max_points = 30

abbrev pub window_ms : ℕ
window_ms = 30 * 60 * 1000

abbrev pub min_interval_ms : ℕ
min_interval_ms = 15000

-- The state `history` and the references `lastTs` and `lastCluster`.
pub record Activity : Type 0 where
  pub history : List ActivitySnapshot
  pub last_ts : ℕ
  pub last_cluster : Option String

unfoldable pub fresh : Activity
fresh = record { history = []; last_ts = 0; last_cluster = none }

abbrev pub same_cluster : Option String → Option String → Bool
same_cluster none none = true
same_cluster (some a) (some b) = a == b
same_cluster _ _ = false

-- The first effect.
unfoldable pub follow_cluster : Option String → Activity → Activity
follow_cluster cluster a =
    if same_cluster cluster a.last_cluster
    then a
    else record { history = []; last_ts = 0; last_cluster = cluster }

snapshot : (ℕ → String) → ℕ → Reading → ActivitySnapshot
snapshot format_time now r = record {
  ts = now;
  label = format_time now;
  total_lag = r.total_lag;
  max_lag = r.max_lag;
  under_replicated = r.under_replicated;
  offline_partitions = r.offline_partitions;
}

-- `p.ts >= now - WINDOW_MS`
abbrev pub in_window : ℕ → ActivitySnapshot → Bool
in_window now p = leb now (p.ts + window_ms)

-- `!clusterId`
abbrev pub no_cluster : Option String → Bool
no_cluster none = true
no_cluster (some id) = is_blank id

record_reading : (ℕ → String) → ℕ → Reading → Activity → Activity
unfolding snapshot
record_reading format_time now r a =
    if not (eqb a.last_ts 0) && ltb now (a.last_ts + min_interval_ms) then a else record a {
      last_ts = now;
      history =
          last_n max_points (keep (in_window now) a.history ++ snapshot format_time now r ∷ []);
    }

-- The second effect, at the time `now`.
unfoldable pub sample : (ℕ → String) → ℕ → Option String → Option Reading → Activity → Activity
unfolding record_reading
sample format_time now cluster none a = a
sample format_time now cluster (some r) a =
    if no_cluster cluster then a else record_reading format_time now r a

-- A render in which an argument changed: both effects, in their order.
unfoldable pub render : (ℕ → String) → ℕ → Option String → Option Reading → Activity → Activity
render format_time now cluster reading a =
    sample format_time now cluster reading (follow_cluster cluster a)

pub data Key : Type 0 where
  total_lag max_lag under_replicated offline_partitions : Key

abbrev pub value_at : Key → ActivitySnapshot → ℕ
value_at total_lag h = h.total_lag
value_at max_lag h = h.max_lag
value_at under_replicated h = h.under_replicated
value_at offline_partitions h = h.offline_partitions

-- `Math.max(...vals)` and `Math.min(...vals)` of a list with a head
unfoldable pub largest : ℕ → List ℕ → ℕ
largest m [] = m
largest m (x ∷ xs) = largest (max m x) xs

unfoldable pub smallest : ℕ → List ℕ → ℕ
smallest m [] = m
smallest m (x ∷ xs) = smallest (min m x) xs

unfoldable pub varies : List ℕ → Bool
varies [] = false
varies (v ∷ vs) = not (eqb (largest v vs) (smallest v vs))

unfoldable pub activity_has_variation : List ActivitySnapshot → Bool
unfolding varies largest smallest
activity_has_variation history =
    if ltb (length history) 2
    then false
    else any (λ key. varies (map (value_at key) history))
        (total_lag ∷ max_lag ∷ under_replicated ∷ offline_partitions ∷ [])

unfoldable pub sparkline_from_activity : List ActivitySnapshot → Key → List ℕ
sparkline_from_activity [] key = 0 ∷ 0 ∷ 0 ∷ 0 ∷ 0 ∷ []
sparkline_from_activity (h ∷ hs) key = map (value_at key) (h ∷ hs)
