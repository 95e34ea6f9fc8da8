-- ===== src/Ui/Focus.antt =====
-- Where a `Dialog` puts the focus (frontend/src/components/ui/Dialog.tsx).
pub mod Laws
use kafkaesque.Prelude.{
  find, ◌&&◌, not, false, true, if◌then◌else◌, Bool, List, Option, ℕ, none, some,
}

-- An element of the panel. `marked`: it has the attribute data-autofocus; `is_field`: it is an input,
-- a select or a textarea.
pub record Element : Type 0 where
  pub id : ℕ
  pub marked : Bool
  pub is_field : Bool

-- What the two calls of `querySelector` find in the panel, whose elements are in document order.
unfoldable pub target : List Element → Option Element
target panel = elim (find (λ e. e.marked) panel) [
  | none ↦ find (λ e. e.is_field) panel
  | some e ↦ some e
]

-- `opened` is the value of `open` that the effect last ran for, `frame` whether the callback given to
-- `requestAnimationFrame` waits, `focused` the element of the document that has the focus.
pub record Dialog : Type 0 where
  pub opened : Bool
  pub frame : Bool
  pub focused : Option ℕ

-- A render: the effect on `[open]` runs, after its cleanup, where `open` has changed.
unfoldable pub rendered : Bool → Dialog → Dialog
rendered open_now d =
    if open_now && not d.opened
    then record d { opened = true; frame = true }
    else if d.opened && not open_now
    then record d { opened = false; frame = false }
    else d

-- The next frame, with the panel as it stands then.
unfoldable pub frame_fired : List Element → Dialog → Dialog
frame_fired panel d =
    if d.frame
    then elim (target panel) [
      | none ↦ record d { frame = false }
      | some e ↦ record d { frame = false; focused = some e.id }
    ]
    else d

-- The user puts the focus elsewhere.
unfoldable pub focus_moved : ℕ → Dialog → Dialog
focus_moved id d = record d { focused = some id }
