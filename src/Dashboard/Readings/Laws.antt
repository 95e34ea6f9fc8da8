-- ===== src/Dashboard/Readings/Laws.antt =====
-- What the dashboard's history holds after its first render.
use kafkaesque.Api.Types.{ConsumerGroup}
use kafkaesque.Dashboard.{Counts, total_lag}
use kafkaesque.Dashboard.Readings.{reading, max_lag, max_lag_from, counts_of, render_dashboard}
use kafkaesque.Metrics.{Activity, ActivitySnapshot, fresh, min_interval_ms}
use kafkaesque.Metrics.Pause.{held, render-first, render-held}
use kafkaesque.Prelude.Texts.{is_blank}
use kafkaesque.Prelude.{
  ap, refl, ◌∙◌, All, [], ◌∷◌, ◌+◌, ◌<◌, ◌≡◌, false, List, Option, String, ℕ, none,
}

-- A render: its time, and the answers that have come in.
pub record Look : Type 0 where
  pub now : ℕ
  pub health : Option Counts
  pub groups : Option (List ConsumerGroup)

unfoldable pub looks : (ℕ → String) → String → List Look → Activity → Activity
looks format_time cluster [] a = a
looks format_time cluster (l ∷ ls) a =
    looks format_time cluster ls (render_dashboard format_time l.now cluster l.health l.groups a)

looks-held :
    (format_time : ℕ → String) (cluster : String) (ls : List Look) (last : ℕ)
    (ps : List ActivitySnapshot)
    → 0 < last
    → All (λ l. l.now < last + min_interval_ms) ls
    → looks format_time cluster ls (held cluster last ps) ≡ held cluster last ps
unfolding looks render_dashboard
looks-held format_time cluster [] last ps p h = refl
looks-held format_time cluster (l ∷ ls) last ps p (q, h) =
    ap (looks format_time cluster ls) (render-held format_time l.now last cluster _ ps p q)
    ∙ looks-held format_time cluster ls last ps p h

-- A dashboard that is first rendered before the server has answered has a snapshot of zeros at once, and
-- for 15 s it stays the only one, whatever the server answers.
pub looks-unanswered :
    (format_time : ℕ → String) (now : ℕ) (cluster : String) (ls : List Look)
    → 0 < now
    → is_blank cluster ≡ false
    → All (λ l. l.now < now + min_interval_ms) ls
    → (looks format_time cluster ls
        (render_dashboard format_time now cluster none none fresh)).history
      ≡ record {
        ts = now;
        label = format_time now;
        total_lag = 0;
        max_lag = 0;
        under_replicated = 0;
        offline_partitions = 0;
      }
        ∷ []
unfolding render_dashboard reading max_lag max_lag_from counts_of total_lag
looks-unanswered format_time now cluster ls p e h =
    ap (λ a. (looks format_time cluster ls a).history)
      (render-first format_time now cluster (reading none none) e)
    ∙ ap (λ a. a.history) (looks-held format_time cluster ls now _ p h)
