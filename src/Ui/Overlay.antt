-- ===== src/Ui/Overlay.antt =====
-- `Dialog` and `Drawer` (frontend/src/components/ui/Dialog.tsx and Drawer.tsx), `useDebounce`
-- (hooks/useDebounce.ts) and `usePageTitle` (hooks/usePageTitle.ts).
pub mod Laws
use kafkaesque.Prelude.Texts.{some_text}
use Prim.Native.String.{◌++◌ as ◌<>◌}
use kafkaesque.Prelude.{
  zero, [], ◌==◌, suc, ◌&&◌, map, ◌∷◌, Bool, false, true, List, Option, String, ℕ, none, some,
}

-- The overlays of a page, one entry for each: whether it is shown. `scroll_locked` says that
-- `document.body.style.overflow` is `hidden`.
pub record Overlays : Type 0 where
  pub shown : List Bool
  pub scroll_locked : Bool

abbrev pub no_overlay : List Bool → Overlays
no_overlay shown = record { shown = map (λ _. false) shown; scroll_locked = false }

abbrev set_at : ℕ → Bool → List Bool → List Bool
set_at n b [] = []
set_at zero b (x ∷ xs) = b ∷ xs
set_at (suc n) b (x ∷ xs) = x ∷ set_at n b xs

-- The overlay at a place is shown, or hidden again: the effect on `[open]`, or its cleanup.
unfoldable pub show_at : ℕ → Overlays → Overlays
show_at n o = record { shown = set_at n true o.shown; scroll_locked = true }

unfoldable pub hide_at : ℕ → Overlays → Overlays
hide_at n o = record { shown = set_at n false o.shown; scroll_locked = false }

-- The listeners on `keydown`: which overlays a key asks to close. Each one that is shown listens.
unfoldable pub asked_to_close : String → Overlays → List Bool
asked_to_close key o = map (λ b. b && key == "Escape") o.shown

-- `useDebounce`: the value, the one that is given out, and the value of the timer that runs.
pub record Debounce {ℓ} (A : Type ℓ) : Type ℓ where
  pub value : A
  pub debounced : A
  pub waiting : Option A

module _ {ℓ} {A : Type ℓ} where
  -- The first render, with the effect that follows.
  unfoldable pub debounce : A → Debounce A
  debounce x = record { value = x; debounced = x; waiting = some x }

  -- A render with another value: the timer is cleared and a new one is set.
  unfoldable pub value_changed : A → Debounce A → Debounce A
  value_changed x d = record d { value = x; waiting = some x }

  -- The timer that runs, if any, fires.
  unfoldable pub timer_fired : Debounce A → Debounce A
  timer_fired d = elim d.waiting [ none ↦ d | some x ↦ record d { debounced = x; waiting = none } ]

unfoldable pub document_title : Option String → String
document_title title = elim (some_text title) [
  | none ↦ "Kafkaesque"
  | some t ↦ "Kafkaesque — " <> t
]
