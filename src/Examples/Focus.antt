-- ===== src/Examples/Focus.antt =====
-- The focus of a dialog.
use kafkaesque.Ui.Focus.{Element, target}
use kafkaesque.Ui.Focus.Laws.{Event, render, frame, move}
use kafkaesque.Prelude.{refl, [], ◌∷◌, false, true, List, some, ◌≡◌}

abbrev button : Element
button = record { id = 1; marked = false; is_field = false }

abbrev field : Element
field = record { id = 2; marked = false; is_field = true }

abbrev marked_field : Element
marked_field = record { id = 3; marked = true; is_field = true }

abbrev panel : List Element
panel = button ∷ field ∷ marked_field ∷ []

abbrev typing : List Event
typing = render true ∷ move 2 ∷ render true ∷ frame panel ∷ render true ∷ []

field-target : target (button ∷ field ∷ []) ≡ some field
unfolding target
field-target = refl
