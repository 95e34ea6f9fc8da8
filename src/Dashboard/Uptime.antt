-- ===== src/Dashboard/Uptime.antt =====
-- The bar at the foot of the dashboard (frontend/src/components/dashboard/DashboardStatusBar.tsx).
use kafkaesque.Api.Types.{Cluster}
use kafkaesque.Prelude.Decimal.{to_text}
use kafkaesque.Prelude.Texts.{to_lower, replace_spaces, some_text}
use kafkaesque.Prelude.{
  [], ◌∷◌, List, or_else, arith, ◌-◌, ◌≤◌, ◌+◌, ltb, ◌*◌, Option, if◌then◌else◌, ◌%◌, ◌/◌, ◌<◌,
  String, ℕ, none, some,
}
use Prim.Native.String.{◌++◌ as ◌<>◌}

unfoldable pub hours : ℕ → ℕ
hours diff = diff / 3600000

unfoldable pub minutes : ℕ → ℕ
minutes diff = diff % 3600000 / 60000

unfoldable pub seconds : ℕ → ℕ
seconds diff = diff % 60000 / 1000

abbrev print_uptime : ℕ → ℕ → ℕ → String
print_uptime h m s =
    if ltb 0 h
    then to_text h <> ("h " <> (to_text m <> ("m " <> (to_text s <> "s"))))
    else if ltb 0 m
    then to_text m <> ("m " <> (to_text s <> "s"))
    else to_text s <> "s"

-- A start after `now` counts as `now`.
unfoldable pub format_uptime : (String → Option ℕ) → ℕ → Option String → String
format_uptime time_of now last_connected = elim (some_text last_connected) [
  | none ↦ "—"
  | some iso ↦ elim (time_of iso) [
    | none ↦ "—"
    | some t ↦ let diff = now - t in print_uptime (hours diff) (minutes diff) (seconds diff)
  ]
]

-- `selectedCluster?.name?.toLowerCase().replace(/\s+/g, '-') || '—'`
unfoldable pub cluster_label : Option Cluster → String
cluster_label none = "—"
cluster_label (some c) = or_else (some_text (some (replace_spaces "-" (to_lower c.name)))) "—"

-- The texts of the bar: version, cluster, uptime, interval in seconds.
unfoldable pub status_bar : (String → Option ℕ) → ℕ → ℕ → Option Cluster → List (String × String)
status_bar time_of now interval c =
    let version : Option String = elim c [ none ↦ none | some k ↦ k.kafka_version ] in
    let connected : Option String = elim c [ none ↦ none | some k ↦ k.last_connected_at ] in
    ("Kafka Version", or_else (some_text version) "—")
    ∷ ("Cluster ID", cluster_label c)
    ∷ ("Uptime", format_uptime time_of now connected)
    ∷ ("Auto refresh", to_text interval <> "s")
    ∷ []

-- The parts add up to the time that has passed, less than a second short, with minutes and seconds
-- below 60.
pub uptime-parts :
    (diff : ℕ)
    → (minutes diff < 60)
      × (seconds diff < 60)
      × (hours diff * 3600000 + minutes diff * 60000 + seconds diff * 1000 ≤ diff)
      × (diff < hours diff * 3600000 + minutes diff * 60000 + seconds diff * 1000 + 1000)
unfolding hours minutes seconds
uptime-parts diff = (omega arith, omega arith, omega arith, omega arith)
