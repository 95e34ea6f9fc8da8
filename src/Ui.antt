-- ===== src/Ui.antt =====
-- What the event handlers of the components have in common: a handler reads the component's state,
-- sets new state and has effects, in order. A React state update is seen by the next handler.
pub mod Table
pub mod Viewers
pub mod Overlay
pub mod Focus
use kafkaesque.Prelude.{ℕ, Bool, Option, List, [], ◌∷◌, ◌++◌, String, if◌then◌else◌}
use kafkaesque.Api.Transport.{Request}

-- The operations of `DialogContext` that a component calls.
pub data DialogCall : Type 0 where
  open_command_palette close_command_palette open_create_topic close_create_topic : DialogCall
  open_add_cluster close_add_cluster : DialogCall
  open_produce_message : Option String → DialogCall
  close_produce_message : DialogCall

pub data ToastType : Type 0 where
  success error warning : ToastType

-- `mutate r` starts the mutation that sends `r`; `on_close` calls the component's property of that
-- name; `log_in` and `log_out` call the session's; `refetch` reads a query again; `later n` is a `setTimeout` of `n` ms, whose callback is a
-- handler of its own; `load` has the browser load a page.
pub data Effect : Type 0 where
  mutate : Request → Effect
  invalidate : List String → Effect
  toast : ToastType → String → Effect
  dialog : DialogCall → Effect
  navigate : String → Effect
  set_item : String → String → Effect
  remove_item : String → Effect
  select_cluster : String → Effect
  on_close : Effect
  log_out : Effect
  log_in : String → String → Effect
  refetch : Effect
  load : String → Effect
  later : ℕ → Effect

module _ {ℓ} {S : Type ℓ} where
  abbrev pub stay : S → S × List Effect
  stay s = (s, [])

  -- The effects of a handler followed by those of the next one, on its state.
  infixl 5 ◌>>◌
  abbrev pub ◌>>◌ : (S → S × List Effect) → (S → S × List Effect) → S → S × List Effect
  ◌>>◌ f g s = let (t, es) = f s in let (u, fs) = g t in (u, es ++ fs)

  abbrev pub emit : Effect → S → S × List Effect
  emit e s = (s, e ∷ [])

  abbrev pub modify : (S → S) → S → S × List Effect
  modify f s = (f s, [])

  -- `if (b) …`
  abbrev pub when : Bool → (S → S × List Effect) → S → S × List Effect
  when b f s = if b then f s else (s, [])

-- The requests that a list of effects sends.
abbrev pub sent : List Effect → List Request
sent [] = []
sent (mutate r ∷ es) = r ∷ sent es
sent (_ ∷ es) = sent es
