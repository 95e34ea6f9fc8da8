-- ===== src/Metrics/Window.antt =====
-- What the activity history holds.
use kafkaesque.Prelude.{
  All-drop, length-last_n-le, All-append, eqb_iff, leb→le, ◌-◌, All-keep, inr, ltb, none, refl,
  ◌++◌, ◌↔◌, ◌⊎◌, false, inl, max, min, some, zero, ◌&&◌, Bool-cases, [], arith, eqb, suc, ◌+◌, ◌<◌,
  ◌≡◌, All, Option, String, drop, keep, not, ◌∷◌, ◌≤◌, Bool, List, length, ℕ,
}
use kafkaesque.Metrics.{
  same_cluster, no_cluster, in_window, min_interval_ms, window_ms, Reading, max_points, sample,
  snapshot, follow_cluster, fresh, largest, record_reading, render, smallest, varies,
  ActivitySnapshot, Activity,
}

-- Each snapshot is at least the minimal interval after every earlier one.
abbrev pub Spaced : List ActivitySnapshot → Type 0
Spaced [] = Unit
Spaced (p ∷ ps) = All (λ q. p.ts + min_interval_ms ≤ q.ts) ps × Spaced ps

pub record IsSound (a : Activity) : Type 0 where
  pub bounded : length a.history ≤ max_points
  pub spaced : Spaced a.history
  pub seen : All (λ p. p.ts ≤ a.last_ts) a.history
  pub recent : All (λ p. a.last_ts ≤ p.ts + window_ms) a.history
  pub started : a.last_ts ≡ 0 → a.history ≡ []

All-map :
    {A : Type 0} (P Q : A → Type 0) (f : (x : A) → P x → Q x) (xs : List A) → All P xs → All Q xs
All-map P Q f [] h = tt
All-map P Q f (x ∷ xs) (p, h) = (f x p, All-map P Q f xs h)

Spaced-drop : (n : ℕ) (ps : List ActivitySnapshot) → Spaced ps → Spaced (drop n ps)
Spaced-drop zero ps h = h
Spaced-drop (suc n) [] h = h
Spaced-drop (suc n) (p ∷ ps) h = Spaced-drop n ps h.1

Spaced-keep :
    (f : ActivitySnapshot → Bool) (ps : List ActivitySnapshot) → Spaced ps → Spaced (keep f ps)
Spaced-keep f [] h = h
Spaced-keep f (p ∷ ps) (q, h) = elim (Bool-cases (f p)) [
  | inl e ↦ rw e (All-keep _ f ps q, Spaced-keep f ps h)
  | inr e ↦ rw e (Spaced-keep f ps h)
]

Spaced-concat :
    (ps : List ActivitySnapshot) (s : ActivitySnapshot)
    → Spaced ps
    → All (λ p. p.ts + min_interval_ms ≤ s.ts) ps
    → Spaced (ps ++ s ∷ [])
Spaced-concat [] s h k = (tt, tt)
Spaced-concat (p ∷ ps) s (q, h) (l, k) = (All-append _ ps _ q (l, tt), Spaced-concat ps s h k)

keep-window :
    (now : ℕ) (ps : List ActivitySnapshot)
    → All (λ p. now ≤ p.ts + window_ms) (keep (in_window now) ps)
keep-window now [] = tt
keep-window now (p ∷ ps) = elim (Bool-cases (in_window now p)) [
  | inl e ↦ rw e (leb→le now (p.ts + window_ms) e, keep-window now ps)
  | inr e ↦ rw e (keep-window now ps)
]

follow_cluster-IsSound :
    (cluster : Option String) (a : Activity) → IsSound a → IsSound (follow_cluster cluster a)
unfolding follow_cluster
follow_cluster-IsSound cluster a h = elim (Bool-cases (same_cluster cluster a.last_cluster)) [
  | inl e ↦ rw e h
  | inr e ↦
      rw e
        (record { bounded = omega arith; spaced = tt; seen = tt; recent = tt; started = λ _. refl })
]

-- Either nothing was recorded, or the last reading is far enough away from every snapshot.
far :
    (now : ℕ) (a : Activity)
    → IsSound a
    → (not (eqb a.last_ts 0) && ltb now (a.last_ts + min_interval_ms)) ≡ false
    → 0 < now
    → All (λ p. p.ts + min_interval_ms ≤ now) a.history
far now a h t pos = elim (Bool-cases (eqb a.last_ts 0)) [
  | inl e ↦ rw (h.started ((eqb_iff _ _).0 e)) tt
  | inr e ↦ All-map _ _ (λ p q. ground arith) a.history h.seen
]

record_reading-IsSound :
    (format_time : ℕ → String) (now : ℕ) (r : Reading) (a : Activity)
    → 0 < now
    → IsSound a
    → IsSound (record_reading format_time now r a)
unfolding record_reading snapshot
record_reading-IsSound format_time now r a pos h =
    elim (Bool-cases (not (eqb a.last_ts 0) && ltb now (a.last_ts + min_interval_ms))) [
      | inl e ↦ rw e h
      | inr e ↦
          let s = snapshot format_time now r in
          let old = keep (in_window now) a.history in
          let apart = All-keep _ (in_window now) a.history (far now a h e pos) in
          let n = length (old ++ s ∷ []) - max_points in
          rw e (record {
            bounded = length-last_n-le max_points (old ++ s ∷ []);
            spaced =
                Spaced-drop n (old ++ s ∷ [])
                  (Spaced-concat old s (Spaced-keep _ a.history h.spaced) apart);
            seen = All-drop _ n (old ++ s ∷ []) (
                All-append _ old (s ∷ []) (All-map _ _ (λ p q. omega arith) old apart)
                  (omega arith, tt));
            recent =
                All-drop _ n (old ++ s ∷ [])
                  (All-append _ old (s ∷ []) (keep-window now a.history) (omega arith, tt));
            started = λ z. absurd (omega arith);
          })
    ]

-- A render: its time, the selected cluster and the readings of the server.
pub record Render : Type 0 where
  pub now : ℕ
  pub cluster : Option String
  pub reading : Option Reading

unfoldable pub renders : (ℕ → String) → List Render → Activity → Activity
renders format_time [] a = a
renders format_time (r ∷ rs) a =
    renders format_time rs (render format_time r.now r.cluster r.reading a)

render-IsSound :
    (format_time : ℕ → String) (r : Render) (a : Activity)
    → 0 < r.now
    → IsSound a
    → IsSound (render format_time r.now r.cluster r.reading a)
unfolding render sample
render-IsSound format_time r a pos h =
    sample-IsSound r.reading (follow_cluster r.cluster a) (follow_cluster-IsSound r.cluster a h)
  where
    sample-IsSound :
        (reading : Option Reading) (b : Activity)
        → IsSound b
        → IsSound (sample format_time r.now r.cluster reading b)
    sample-IsSound none b k = k
    sample-IsSound (some x) b k = elim (Bool-cases (no_cluster r.cluster)) [
      | inl e ↦ rw e k
      | inr e ↦ rw e (record_reading-IsSound format_time r.now x b pos k)
    ]

renders-IsSound :
    (format_time : ℕ → String) (rs : List Render) (a : Activity)
    → All (λ r. 0 < r.now) rs
    → IsSound a
    → IsSound (renders format_time rs a)
unfolding renders
renders-IsSound format_time [] a pos h = h
renders-IsSound format_time (r ∷ rs) a (p, pos) h =
    renders-IsSound format_time rs _ pos (render-IsSound format_time r a p h)

-- After any renders, at any times after 1970, the history holds at most 30 snapshots, each at least
-- 15 s after every earlier one, none more than 30 minutes older than the last reading.
pub renders-fresh :
    (format_time : ℕ → String) (rs : List Render)
    → All (λ r. 0 < r.now) rs
    → IsSound (renders format_time rs fresh)
unfolding fresh
renders-fresh format_time rs pos =
    renders-IsSound format_time rs fresh pos
      (record { bounded = omega arith; spaced = tt; seen = tt; recent = tt; started = λ _. refl })

-- In a render with another cluster all earlier snapshots are forgotten: at most the new one is left.
render-other_cluster :
    (format_time : ℕ → String) (now : ℕ) (cluster : Option String) (reading : Option Reading)
    (a : Activity)
    → same_cluster cluster a.last_cluster ≡ false
    → ((render format_time now cluster reading a).history ≡ [])
      ⊎ ((s : ActivitySnapshot) × ((render format_time now cluster reading a).history ≡ s ∷ [])
          × (s.ts ≡ now))
unfolding render sample record_reading snapshot follow_cluster
render-other_cluster format_time now cluster none a e = inl (ground arith)
render-other_cluster format_time now cluster (some r) a e = elim (Bool-cases (no_cluster cluster)) [
  | inl n ↦ inl (rw (e, n) refl)
  | inr n ↦ inr (snapshot format_time now r, rw (e, n) refl, refl)
]

largest-bounds : (m : ℕ) (xs : List ℕ) → (m ≤ largest m xs) × All (λ x. x ≤ largest m xs) xs
unfolding largest
largest-bounds m [] = (omega arith, tt)
largest-bounds m (x ∷ xs) =
    let (here, rest) = largest-bounds (max m x) xs in (omega arith, (omega arith, rest))

smallest-bounds : (m : ℕ) (xs : List ℕ) → (smallest m xs ≤ m) × All (λ x. smallest m xs ≤ x) xs
unfolding smallest
smallest-bounds m [] = (omega arith, tt)
smallest-bounds m (x ∷ xs) =
    let (here, rest) = smallest-bounds (min m x) xs in (omega arith, (omega arith, rest))

All-both :
    {A : Type 0} (P Q R : A → Type 0) (f : (x : A) → P x → Q x → R x) (xs : List A)
    → All P xs
    → All Q xs
    → All R xs
All-both P Q R f [] h k = tt
All-both P Q R f (x ∷ xs) (p, h) (q, k) = (f x p q, All-both P Q R f xs h k)

extremes-equal :
    (m : ℕ) (xs : List ℕ) → All (λ x. x ≡ m) xs → (largest m xs ≡ m) × (smallest m xs ≡ m)
unfolding largest smallest
extremes-equal m [] h = (refl, refl)
extremes-equal m (x ∷ xs) (e, h) =
    let a : max m x ≡ m = omega arith in
    let b : min m x ≡ m = omega arith in rw (a, b) (extremes-equal m xs h)

-- A list of values varies exactly when not all of them are the first one.
pub varies_iff : (v : ℕ) (vs : List ℕ) → (varies (v ∷ vs) ≡ false) ↔ All (λ x. x ≡ v) vs
unfolding varies
varies_iff v vs = (
  λ h.
      let same = (eqb_iff (largest v vs) (smallest v vs)).0 (ground arith) in
      let (lv, ls) = largest-bounds v vs in
      let (sv, ss) = smallest-bounds v vs in All-both _ _ _ (λ x p q. omega arith) vs ls ss,
  λ h. let (a, b) = extremes-equal v vs h in rw (a, b) (ground arith),
)
