-- ===== src/Examples/Histories.antt =====
-- Two readings of a cluster, and of another one.
use kafkaesque.Prelude.{refl, ◌≡◌, none, ◌∷◌, List, [], arith, some}
use kafkaesque.Metrics.Window
use kafkaesque.Dashboard.Readings.{render_dashboard}
use kafkaesque.Dashboard.Readings.Laws as Looks
use kafkaesque.Metrics.{fresh, Reading, Activity}

abbrev calm : Reading
calm = record { total_lag = 4; max_lag = 3; under_replicated = 0; offline_partitions = 0 }

abbrev two_renders : List Window.Render
two_renders =
    record { now = 100000; cluster = some "c1"; reading = some calm }
    ∷ record { now = 120000; cluster = some "c1"; reading = some calm }
    ∷ []

renders-fresh_example : Window.IsSound (Window.renders (λ t. "now") two_renders fresh)
renders-fresh_example =
    Window.renders-fresh (λ t. "now") two_renders (omega arith, (omega arith, tt))

abbrev watched : Activity
watched = record { history = []; last_ts = 90000; last_cluster = some "c1" }

-- Both answers come in a second after the first render.
abbrev answered : Looks.Look
answered = record {
  now = 101000;
  health = some (record {
    brokers = 3;
    topics = 9;
    partitions = 40;
    groups = 2;
    under_replicated = 5;
    offline = 1;
  });
  groups = some (
      record {
        group_id = "billing";
        state = "Stable";
        members = 1;
        topics = 1;
        total_lag = 700;
        max_lag = 400;
      }
      ∷ []);
}

looks-unanswered_example :
    (Looks.looks
      (λ t. "now")
      "c1"
      (answered ∷ [])
      (render_dashboard (λ t. "now") 100000 "c1" none none fresh)).history
    ≡ record {
      ts = 100000;
      label = "now";
      total_lag = 0;
      max_lag = 0;
      under_replicated = 0;
      offline_partitions = 0;
    }
      ∷ []
looks-unanswered_example =
    Looks.looks-unanswered (λ t. "now") 100000 "c1" (answered ∷ []) (omega arith) refl
      (omega arith, tt)
