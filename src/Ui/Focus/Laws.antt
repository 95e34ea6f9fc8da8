-- ===== src/Ui/Focus/Laws.antt =====
-- A dialog takes the focus when it opens, and never while its user types.
use kafkaesque.Ui.Focus.{Element, Dialog, rendered, frame_fired, focus_moved}
use kafkaesque.Prelude.{[], ◌∷◌, false, true, Bool, List, Option, ℕ, some, ◌≡◌}

-- What may happen to a dialog: a render with `open`, a frame, a choice of the user.
pub data Event : Type 0 where
  render : Bool → Event
  frame : List Element → Event
  move : ℕ → Event

abbrev on_event : Event → Dialog → Dialog
on_event (render b) d = rendered b d
on_event (frame panel) d = frame_fired panel d
on_event (move id) d = focus_moved id d

abbrev pub on_events : List Event → Dialog → Dialog
on_events [] d = d
on_events (t ∷ ts) d = on_events ts (on_event t d)

-- No render closes the dialog.
abbrev pub StaysOpen : List Event → Type 0
StaysOpen [] = Unit
StaysOpen (render b ∷ ts) = (b ≡ true) × StaysOpen ts
StaysOpen (frame panel ∷ ts) = StaysOpen ts
StaysOpen (move id ∷ ts) = StaysOpen ts

-- What the user last gave the focus to.
abbrev pub last_moved : List Event → Option ℕ → Option ℕ
last_moved [] focused = focused
last_moved (render b ∷ ts) focused = last_moved ts focused
last_moved (frame panel ∷ ts) focused = last_moved ts focused
last_moved (move id ∷ ts) focused = last_moved ts (some id)

settled : Option ℕ → Dialog
settled focused = record { opened = true; frame = false; focused = focused }
