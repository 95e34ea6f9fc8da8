-- ===== src/Context/Toasts.antt =====
-- `ToastProvider` (frontend/src/context/ToastContext.tsx). The identifier that `crypto.randomUUID`
-- draws is an argument. `timed_out` is the callback of a toast's timer.
use kafkaesque.Ui.{ToastType}
use kafkaesque.Prelude.{[], ◌==◌, ◌∷◌, not, ◌++◌, keep, List, String}
pub mod Laws

pub record Toast : Type 0 where
  pub id : String
  pub kind : ToastType
  pub message : String

unfoldable pub dismiss : String → List Toast → List Toast
dismiss id ts = keep (λ t. not (t.id == id)) ts

-- The toasts on display, and the timers that run, by the identifiers that they dismiss.
pub record Toasts : Type 0 where
  pub shown : List Toast
  pub timers : List String

unfoldable pub add : String → ToastType → String → Toasts → Toasts
add id kind message ts = record {
  shown = ts.shown ++ record { id = id; kind = kind; message = message } ∷ [];
  timers = ts.timers ++ id ∷ [];
}

-- The button of a toast.
unfoldable pub close : String → Toasts → Toasts
close id ts = record ts { shown = dismiss id ts.shown }

-- The first timer to fire is the first that was set: they all run for 5000 ms.
fire : List String → List Toast → Toasts
fire [] shown = record { shown = shown; timers = [] }
fire (id ∷ rest) shown = record { shown = dismiss id shown; timers = rest }

unfoldable pub timed_out : Toasts → Toasts
unfolding fire
timed_out ts = fire ts.timers ts.shown
