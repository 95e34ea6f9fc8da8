-- ===== src/Pages/Alerts/Laws.antt =====
-- What the page of alerts shows and sends.
use kafkaesque.Ui.{mutate, sent}
use kafkaesque.Prelude.Texts.{is_blank}
use kafkaesque.Api.Types.{ConsumerGroup, AlertRule}
use kafkaesque.Api.Transport.{Request}
use kafkaesque.Prelude.{
  ap, inr, max, ◌∙◌, inl, min, ◌⊎◌, refl, true, ◌↔◌, arith, if◌then◌else◌, zero, ◌++◌, ◌<◌, Memᴰ,
  false, some, ◌∷◌, suc, ◌≡◌, ◌≤◌, Bool, [], List, String, ℕ,
}
use kafkaesque.Api.Client.{evaluate_alerts}
use kafkaesque.Pages.Alerts.{
  max_lag_of, largest_lag, lowest, lowest_threshold, follow_live, toggle_live, tick, AlertsState,
}

-- The requests of `n` ticks of the timer.
unfoldable pub ticks : String → ℕ → AlertsState → List Request
ticks cluster zero s = []
ticks cluster (suc n) s = let (t, es) = tick cluster s in sent es ++ ticks cluster n t

abbrev pub replicate {ℓ} : {A : Type ℓ} → ℕ → A → List A
replicate zero x = []
replicate (suc n) x = x ∷ replicate n x

tick-timer :
    (cluster : String) (pending : Bool) (s : AlertsState)
    → s.timer ≡ some pending
    → tick cluster s ≡ (s, if pending then [] else mutate (evaluate_alerts cluster) ∷ [])
unfolding tick
tick-timer cluster true s h = ground arith
tick-timer cluster false s h = ground arith

ticks-timer :
    (cluster : String) (pending : Bool) (n : ℕ) (s : AlertsState)
    → s.timer ≡ some pending
    → ticks cluster n s ≡ (if pending then [] else replicate n (evaluate_alerts cluster))
unfolding ticks
ticks-timer cluster true zero s h = refl
ticks-timer cluster false zero s h = refl
ticks-timer cluster true (suc n) s h =
    rw (tick-timer cluster true s h) (ticks-timer cluster true n s h)
ticks-timer cluster false (suc n) s h =
    rw (tick-timer cluster false s h)
      (ap (λ rs. evaluate_alerts cluster ∷ rs) (ticks-timer cluster false n s h))

-- When monitoring is switched on, the timer's calls do not look at what is pending when it fires: if no
-- check was pending at the switch, each of `n` ticks sends one, also while an earlier one is pending;
-- if one was, no tick ever sends one.
pub ticks-toggle_live :
    (cluster : String) (pending : Bool) (n : ℕ) (s : AlertsState)
    → is_blank cluster ≡ false
    → s.live ≡ false
    → ticks cluster n (toggle_live cluster pending s)
      ≡ (if pending then [] else replicate n (evaluate_alerts cluster))
unfolding toggle_live follow_live
ticks-toggle_live cluster pending n s b l = ticks-timer cluster pending n _ (ground arith)

min_or : (a b : ℕ) → (min a b ≡ a) ⊎ (min a b ≡ b)
min_or a b = grind arith

max_or : (a b : ℕ) → (max a b ≡ a) ⊎ (max a b ≡ b)
max_or a b = grind arith

lowest-start : (m : ℕ) (rs : List AlertRule) → lowest m rs ≤ m
unfolding lowest
lowest-start m [] = omega arith
lowest-start m (x ∷ rs) = let rec = lowest-start (min m x.threshold) rs in omega arith

lowest-Memᴰ : (m : ℕ) (rs : List AlertRule) {r : AlertRule} → Memᴰ r rs → lowest m rs ≤ r.threshold
unfolding lowest
lowest-Memᴰ m [] k = elim k [ ]
lowest-Memᴰ m (x ∷ rs) (Memᴰ.head e) = let rec = lowest-start (min m x.threshold) rs in grind arith
lowest-Memᴰ m (x ∷ rs) (Memᴰ.tail k) = lowest-Memᴰ (min m x.threshold) rs k

lowest-attained :
    (m : ℕ) (rs : List AlertRule)
    → (lowest m rs ≡ m) ⊎ ((r : AlertRule) × Memᴰ r rs × (lowest m rs ≡ r.threshold))
unfolding lowest
lowest-attained m [] = inl refl
lowest-attained m (x ∷ rs) = elim (lowest-attained (min m x.threshold) rs) [
  | inl e ↦ elim (min_or m x.threshold) [
    | inl f ↦ inl (e ∙ f)
    | inr f ↦ inr (x, Memᴰ.head refl, e ∙ f)
  ]
  | inr (r, k, e) ↦ inr (r, Memᴰ.tail k, e)
]

largest_lag-start : (m : ℕ) (gs : List ConsumerGroup) → m ≤ largest_lag m gs
unfolding largest_lag
largest_lag-start m [] = omega arith
largest_lag-start m (x ∷ gs) = let rec = largest_lag-start (max m x.max_lag) gs in omega arith

largest_lag-Memᴰ :
    (m : ℕ) (gs : List ConsumerGroup) {g : ConsumerGroup} → Memᴰ g gs → g.max_lag ≤ largest_lag m gs
unfolding largest_lag
largest_lag-Memᴰ m [] k = elim k [ ]
largest_lag-Memᴰ m (x ∷ gs) (Memᴰ.head e) =
    let rec = largest_lag-start (max m x.max_lag) gs in grind arith
largest_lag-Memᴰ m (x ∷ gs) (Memᴰ.tail k) = largest_lag-Memᴰ (max m x.max_lag) gs k

largest_lag-attained :
    (m : ℕ) (gs : List ConsumerGroup)
    → (largest_lag m gs ≡ m) ⊎ ((g : ConsumerGroup) × Memᴰ g gs × (largest_lag m gs ≡ g.max_lag))
unfolding largest_lag
largest_lag-attained m [] = inl refl
largest_lag-attained m (x ∷ gs) = elim (largest_lag-attained (max m x.max_lag) gs) [
  | inl e ↦ elim (max_or m x.max_lag) [
    | inl f ↦ inl (e ∙ f)
    | inr f ↦ inr (x, Memᴰ.head refl, e ∙ f)
  ]
  | inr (g, k, e) ↦ inr (g, Memᴰ.tail k, e)
]

lowest_threshold-attained :
    (rules : List AlertRule) (m : ℕ)
    → lowest_threshold rules ≡ some m
    → (r : AlertRule) × Memᴰ r rules × (m ≡ r.threshold)
unfolding lowest_threshold
lowest_threshold-attained [] m h = absurd (cc)
lowest_threshold-attained (x ∷ rs) m h = elim (lowest-attained x.threshold rs) [
  | inl e ↦ (x, Memᴰ.head refl, cc)
  | inr (r, k, e) ↦ (r, Memᴰ.tail k, cc)
]

lowest_threshold-Memᴰ :
    (rules : List AlertRule) (m : ℕ) {r : AlertRule}
    → lowest_threshold rules ≡ some m
    → Memᴰ r rules
    → m ≤ r.threshold
unfolding lowest_threshold
lowest_threshold-Memᴰ [] m h k = elim k [ ]
lowest_threshold-Memᴰ (x ∷ rs) m h (Memᴰ.head e) =
    let start_le = lowest-start x.threshold rs in grind arith
lowest_threshold-Memᴰ (x ∷ rs) m h (Memᴰ.tail k) =
    let mem_le = lowest-Memᴰ x.threshold rs k in grind arith

max_lag_of-exceeds :
    (groups : List ConsumerGroup) (m : ℕ)
    → m < max_lag_of groups
    → (g : ConsumerGroup) × Memᴰ g groups × (m < g.max_lag)
unfolding max_lag_of
max_lag_of-exceeds groups m l = elim (largest_lag-attained 0 groups) [
  | inl e ↦ absurd (grind arith)
  | inr (g, k, e) ↦ (g, k, grind arith)
]

-- The lowest threshold shown lies under the largest lag shown exactly when some group's lag exceeds the
-- threshold of some rule.
lag_alarm_iff :
    (rules : List AlertRule) (groups : List ConsumerGroup) (m : ℕ)
    → lowest_threshold rules ≡ some m
    → (m < max_lag_of groups) ↔ (
        (r : AlertRule) × (g : ConsumerGroup) × Memᴰ r rules
        × Memᴰ g groups
        × (r.threshold < g.max_lag))
unfolding max_lag_of
lag_alarm_iff rules groups m e = (
  λ l.
      let (r, k, f) = lowest_threshold-attained rules m e in
      let (g, j, n) = max_lag_of-exceeds groups m l in (r, g, k, j, grind arith),
  λ (r, g, k, j, n).
      let low = lowest_threshold-Memᴰ rules m e k in
      let high = largest_lag-Memᴰ 0 groups j in omega arith,
)
