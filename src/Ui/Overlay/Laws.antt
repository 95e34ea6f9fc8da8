-- ===== src/Ui/Overlay/Laws.antt =====
-- What the debounced value is, and which overlays a key closes.
use kafkaesque.Ui.Overlay.{Debounce, debounce, timer_fired, value_changed}
use kafkaesque.Prelude.{ap, arith, refl, sym, ◌∙◌, ◌⊎◌, inr, none, some, [], inl, ◌≡◌, List, ◌∷◌}

-- What may happen to a debounced value.
pub data Tick {ℓ} (A : Type ℓ) : Type ℓ where
  change : A → Tick A
  fire : Tick A

module _ {ℓ} {A : Type ℓ} where
  abbrev pub on_ticks : List (Tick A) → Debounce A → Debounce A
  on_ticks [] d = d
  on_ticks (change x ∷ ts) d = on_ticks ts (value_changed x d)
  on_ticks (fire ∷ ts) d = on_ticks ts (timer_fired d)

  -- A timer that runs has the latest value, and without one that value is given out.
  abbrev IsCurrent : Debounce A → Type ℓ
  IsCurrent d = (d.waiting ≡ some d.value) ⊎ ((d.waiting ≡ none) × (d.debounced ≡ d.value))

  timer_fired-current :
      (d : Debounce A)
      → IsCurrent d
      → ((timer_fired d).waiting ≡ none)
        × ((timer_fired d).debounced ≡ d.value)
        × ((timer_fired d).value ≡ d.value)
  unfolding timer_fired
  timer_fired-current d (inl e) =
      let same : timer_fired d ≡ record d { debounced = d.value; waiting = none } =
        ground (arith, e) in
      (ap (λ c. c.waiting) same, ap (λ c. c.debounced) same, ap (λ c. c.value) same)
  timer_fired-current d (inr (e, f)) =
      let same : timer_fired d ≡ d = ground (arith, e) in
      (ap (λ c. c.waiting) same ∙ e, ap (λ c. c.debounced) same ∙ f, ap (λ c. c.value) same)

  on_ticks-IsCurrent :
      (ts : List (Tick A)) (d : Debounce A) → IsCurrent d → IsCurrent (on_ticks ts d)
  unfolding value_changed
  on_ticks-IsCurrent [] d h = h
  on_ticks-IsCurrent (change x ∷ ts) d h = on_ticks-IsCurrent ts _ (inl refl)
  on_ticks-IsCurrent (fire ∷ ts) d h =
      let (w, e, v) = timer_fired-current d h in
      on_ticks-IsCurrent ts (timer_fired d) (inr (w, e ∙ sym v))

  -- However often the value changed and timers fired, once the timer that still runs has fired the
  -- value given out is the latest one, and no timer is left.
  pub timer_fired-on_ticks :
      (x : A) (ts : List (Tick A))
      → let d = on_ticks ts (debounce x) in
        ((timer_fired d).debounced ≡ d.value) × ((timer_fired d).waiting ≡ none)
  unfolding debounce
  timer_fired-on_ticks x ts =
      let (w, e, v) = timer_fired-current _ (on_ticks-IsCurrent ts _ (inl refl)) in (e, w)
