-- ===== src/Context/Toasts/Laws.antt =====
-- What becomes of a toast.
use mathlib.Core.List.{append-nil}
use kafkaesque.Prelude.Texts.{includes}
use kafkaesque.Ui.{ToastType}
use kafkaesque.Context.Toasts.{fire, Toast, timed_out, add, Toasts, close, dismiss}
use kafkaesque.Prelude.{
  not, refl, All-append, All-keep, [], eq_iff, eq_refl, length, zero, arith, false, true, ◌∙◌, ◌++◌,
  ◌==◌, ◌∷◌, ◌≡◌, All, List, suc, String, ℕ,
}

abbrev pub Lacks : String → List Toast → Type 0
Lacks id = All (λ t. (t.id == id) ≡ false)

dismiss-Lacks : (id : String) (ts : List Toast) → Lacks id (dismiss id ts)
unfolding dismiss
dismiss-Lacks id [] = tt
dismiss-Lacks id (t ∷ ts) = ground (arith, dismiss-Lacks id ts)

dismiss_of_Lacks : (id : String) (ts : List Toast) → Lacks id ts → dismiss id ts ≡ ts
unfolding dismiss
dismiss_of_Lacks id [] h = refl
dismiss_of_Lacks id (t ∷ ts) (p, h) = ground (arith, dismiss_of_Lacks id ts h)

dismiss-append :
    (id : String) (ts us : List Toast) → dismiss id (ts ++ us) ≡ dismiss id ts ++ dismiss id us
unfolding dismiss
dismiss-append id [] us = refl
dismiss-append id (t ∷ ts) us = ground (arith, dismiss-append id ts us)

-- A toast with a new identifier is shown last; to close it leaves the toasts that were there before.
pub close-add :
    (id : String) (kind : ToastType) (message : String) (ts : Toasts)
    → Lacks id ts.shown
    → (close id (add id kind message ts)).shown ≡ ts.shown
unfolding close add dismiss
close-add id kind message ts h =
    dismiss-append id ts.shown _
    ∙ rw (dismiss_of_Lacks id ts.shown h) (rw (eq_refl id, dismiss) (append-nil ts.shown))

-- Every toast on display has a timer that will dismiss it.
abbrev pub IsTimed : Toasts → Type 0
IsTimed ts = All (λ t. includes ts.timers t.id ≡ true) ts.shown

includes-concat : (ss : List String) (s : String) → includes (ss ++ s ∷ []) s ≡ true
includes-concat [] s = ground (arith, eq_refl s)
includes-concat (x ∷ ss) s = ground (arith, includes-concat ss s)

includes-append :
    (ss us : List String) (s : String) → includes ss s ≡ true → includes (ss ++ us) s ≡ true
includes-append [] us s h = absurd (ground arith)
includes-append (x ∷ ss) us s h = ground (arith, includes-append ss us s)

timed-append :
    (ss us : List String) (ts : List Toast)
    → All (λ t. includes ss t.id ≡ true) ts
    → All (λ t. includes (ss ++ us) t.id ≡ true) ts
timed-append ss us [] h = tt
timed-append ss us (t ∷ ts) (p, h) = (includes-append ss us t.id p, timed-append ss us ts h)

add-IsTimed :
    (id : String) (kind : ToastType) (message : String) (ts : Toasts)
    → IsTimed ts
    → IsTimed (add id kind message ts)
unfolding add
add-IsTimed id kind message ts h =
    All-append _ ts.shown _ (timed-append ts.timers (id ∷ []) ts.shown h)
      (includes-concat ts.timers id, tt)

close-IsTimed : (id : String) (ts : Toasts) → IsTimed ts → IsTimed (close id ts)
unfolding close dismiss
close-IsTimed id ts h = All-keep _ (λ t. not (t.id == id)) ts.shown h

fire-timed :
    (id : String) (rest : List String) (ts : List Toast)
    → All (λ t. includes (id ∷ rest) t.id ≡ true) ts
    → All (λ t. includes rest t.id ≡ true) (dismiss id ts)
unfolding dismiss
fire-timed id rest [] h = tt
fire-timed id rest (t ∷ ts) (p, h) =
    ground (arith, fire-timed id rest ts h, eq_iff id t.id, eq_iff t.id id)

fire-IsTimed :
    (timers : List String) (shown : List Toast)
    → IsTimed (record { shown = shown; timers = timers })
    → IsTimed (fire timers shown)
unfolding fire
fire-IsTimed [] shown h = h
fire-IsTimed (id ∷ rest) shown h = fire-timed id rest shown h

timed_out-IsTimed : (ts : Toasts) → IsTimed ts → IsTimed (timed_out ts)
unfolding timed_out
timed_out-IsTimed ts h = fire-IsTimed ts.timers ts.shown h

-- What happens to the toasts: one is added, closed by its button, or its timer fires.
pub data ToastEvent : Type 0 where
  added : String → ToastType → String → ToastEvent
  closed : String → ToastEvent
  fired : ToastEvent

unfoldable pub on_event : ToastEvent → Toasts → Toasts
on_event (added id kind message) ts = add id kind message ts
on_event (closed id) ts = close id ts
on_event fired ts = timed_out ts

unfoldable pub on_events : List ToastEvent → Toasts → Toasts
on_events [] ts = ts
on_events (e ∷ es) ts = on_events es (on_event e ts)

abbrev pub no_toasts : Toasts
no_toasts = record { shown = []; timers = [] }

on_events-IsTimed : (es : List ToastEvent) (ts : Toasts) → IsTimed ts → IsTimed (on_events es ts)
unfolding on_events on_event
on_events-IsTimed [] ts h = h
on_events-IsTimed (added id kind message ∷ es) ts h =
    on_events-IsTimed es _ (add-IsTimed id kind message ts h)
on_events-IsTimed (closed id ∷ es) ts h = on_events-IsTimed es _ (close-IsTimed id ts h)
on_events-IsTimed (fired ∷ es) ts h = on_events-IsTimed es _ (timed_out-IsTimed ts h)

-- `n` timers fire, one after the other.
unfoldable pub all_fired : ℕ → Toasts → Toasts
all_fired zero ts = ts
all_fired (suc n) ts = all_fired n (timed_out ts)

all_fired-nil :
    (timers : List String) (shown : List Toast)
    → IsTimed (record { shown = shown; timers = timers })
    → (all_fired (length timers) (record { shown = shown; timers = timers })).shown ≡ []
unfolding all_fired timed_out fire
all_fired-nil [] [] h = refl
all_fired-nil [] (t ∷ ts) h = absurd (ground arith)
all_fired-nil (id ∷ rest) shown h =
    all_fired-nil rest (dismiss id shown) (fire-timed id rest shown h)

-- Whatever happened to the toasts, none is left once the timers that still run have fired.
pub all_fired-on_events :
    (es : List ToastEvent)
    → let ts = on_events es no_toasts in (all_fired (length ts.timers) ts).shown ≡ []
all_fired-on_events es =
    let ts = on_events es no_toasts in
    all_fired-nil ts.timers ts.shown (on_events-IsTimed es no_toasts tt)
