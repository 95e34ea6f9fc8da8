-- ===== src/Console/Safety.antt =====
-- Whatever the console comes to, each request that it has sent was justified.
use kafkaesque.Console.Shell.{shell_effects-IsJustified, shell_effects}
use kafkaesque.Context.Clusters.{exposed_id}
use mathlib.Core.Path.{subst}
use mathlib.Core.List.{append_assoc, append-nil}
use kafkaesque.App.Reachable.{launched}
use kafkaesque.Api.Transport.{Request}
use kafkaesque.Console.Requests.{note, IsJustified-cons, IsJustified, Past}
use kafkaesque.Layout.Routes.{blank, loading, moved, opened, View, Pattern, Page}
use kafkaesque.Api.Types.{User, Topic, RoleRecord}
use kafkaesque.Ui.{
  refetch, log_out, on_close, later, load, log_in, remove_item, set_item, invalidate,
  select_cluster, navigate, dialog, toast, mutate, sent, Effect,
}
use kafkaesque.App.{shown_at, execute_all, AppState, close_palette, execute}
use kafkaesque.Prelude.{
  Bool-cases, inl, inr, ◌==◌, All-of_nil, ap, All-append, ◌∙◌, sym, refl, ◌++◌, Bool, ◌≡◌, List, [],
  ◌∷◌, Option, none, some, String, Memᴰ, All,
}
use kafkaesque.Console.{
  answered, clusters_read, followed, quiet, Page-discrete, on_shell, on_page, PageModel, Console,
  settle, resume, console_launched, Step, Reach, here, next,
}

-- A close that sends nothing.
execute-requests :
    (close : AppState → AppState) (new_id : String → String)
    → ((b : AppState) → (close b).requests ≡ b.requests)
    → (e : Effect) (a : AppState)
    → (execute close new_id e a).requests ≡ a.requests ++ sent (e ∷ [])
unfolding execute
execute-requests close new_id k (mutate r) a = refl
execute-requests close new_id k (toast kind message) a = sym (append-nil a.requests)
execute-requests close new_id k (dialog call) a = sym (append-nil a.requests)
execute-requests close new_id k (navigate to) a = sym (append-nil a.requests)
execute-requests close new_id k (select_cluster id) a = sym (append-nil a.requests)
execute-requests close new_id k on_close a = k a ∙ sym (append-nil a.requests)
execute-requests close new_id k log_out a = sym (append-nil a.requests)
execute-requests close new_id k (invalidate key) a = sym (append-nil a.requests)
execute-requests close new_id k (set_item name value) a = elim (Bool-cases (name == "sf_token")) [
  | inl e ↦ rw e (sym (append-nil a.requests))
  | inr e ↦ rw e (sym (append-nil a.requests))
]
execute-requests close new_id k (remove_item name) a = elim (Bool-cases (name == "sf_token")) [
  | inl e ↦ rw e (sym (append-nil a.requests))
  | inr e ↦ rw e (sym (append-nil a.requests))
]
execute-requests close new_id k (log_in email password) a = sym (append-nil a.requests)
execute-requests close new_id k refetch a = sym (append-nil a.requests)
execute-requests close new_id k (load to) a = sym (append-nil a.requests)
execute-requests close new_id k (later n) a = sym (append-nil a.requests)

sent-cons : (e : Effect) (es : List Effect) → sent (e ∷ es) ≡ sent (e ∷ []) ++ sent es
sent-cons (mutate r) es = refl
sent-cons (toast kind message) es = refl
sent-cons (dialog call) es = refl
sent-cons (navigate to) es = refl
sent-cons (select_cluster id) es = refl
sent-cons on_close es = refl
sent-cons log_out es = refl
sent-cons (invalidate key) es = refl
sent-cons (set_item name value) es = refl
sent-cons (remove_item name) es = refl
sent-cons (log_in email password) es = refl
sent-cons refetch es = refl
sent-cons (load to) es = refl
sent-cons (later n) es = refl

execute_all-requests :
    (close : AppState → AppState) (new_id : String → String)
    → ((b : AppState) → (close b).requests ≡ b.requests)
    → (es : List Effect) (a : AppState)
    → (execute_all close new_id es a).requests ≡ a.requests ++ sent es
execute_all-requests close new_id k [] a = sym (append-nil a.requests)
execute_all-requests close new_id k (e ∷ es) a =
    execute_all-requests close new_id k es (execute close new_id e a)
    ∙ ap (λ (rs : List Request). rs ++ sent es) (execute-requests close new_id k e a)
    ∙ append_assoc a.requests (sent (e ∷ [])) (sent es)
    ∙ ap (λ (rs : List Request). a.requests ++ rs) (sym (sent-cons e es))

close_palette-requests : (b : AppState) → (close_palette b).requests ≡ b.requests
unfolding close_palette
close_palette-requests b = refl

All-weaken :
    (me : Option User) (past : Past) (rs : List Request)
    → All (IsJustified past) rs
    → All (IsJustified (note me past)) rs
All-weaken me past [] h = tt
All-weaken me past (r ∷ rs) h = (IsJustified-cons me past h.0, All-weaken me past rs h.1)

module _ (model : Page → PageModel) (new_id : String → String)
    (matches : Pattern → String → Bool) where
  PageIsSafe : Past → Option ((p : Page) × (model p).State) → Type 0
  PageIsSafe past none = Unit
  PageIsSafe past (some (p, s)) = (model p).IsSafe past s

  record IsSound (c : Console model) : Type 0 where
    requests : All (IsJustified c.past) c.app.requests
    page : PageIsSafe c.past c.open_page
    present : Memᴰ c.app.world.session.user c.past.users

  resume-PageIsSafe :
      (past : Past) (v : View) (o : Option ((p : Page) × (model p).State))
      → PageIsSafe past o
      → PageIsSafe past (resume model v o)
  unfolding resume PageIsSafe
  resume-PageIsSafe past (opened p) none h = (model p).start_safe past
  resume-PageIsSafe past (opened p) (some (q, s)) h =
      elim (Page-discrete q p)
        as (λ d.
          PageIsSafe past (elim d [ yes e ↦ some (q, s) | no n ↦ some (p, (model p).start) ])) [
            | yes e ↦ h
            | no n ↦ (model p).start_safe past
          ]
  resume-PageIsSafe past loading o h = tt
  resume-PageIsSafe past (moved to) o h = tt
  resume-PageIsSafe past blank o h = tt

  cons-PageIsSafe :
      (me : Option User) (past : Past) (o : Option ((p : Page) × (model p).State))
      → PageIsSafe past o
      → PageIsSafe (note me past) o
  unfolding PageIsSafe
  cons-PageIsSafe me past none h = tt
  cons-PageIsSafe me past (some (p, s)) h = (model p).safe_cons me past s h

  settle-IsSound :
      (c : Console model)
      → All (IsJustified c.past) c.app.requests
      → PageIsSafe c.past c.open_page
      → IsSound (settle model matches c)
  unfolding settle
  settle-IsSound c rs p = record {
    requests = All-weaken c.app.world.session.user c.past c.app.requests rs;
    page =
        resume-PageIsSafe (note c.app.world.session.user c.past) (shown_at matches c.app)
          c.open_page (cons-PageIsSafe c.app.world.session.user c.past c.open_page p);
    present = Memᴰ.head refl;
  }

  sent-IsJustified :
      (past : Past) (close : AppState → AppState)
      → ((b : AppState) → (close b).requests ≡ b.requests)
      → (es : List Effect) (a : AppState) → All (IsJustified past) a.requests
      → All (IsJustified past) (sent es)
      → All (IsJustified past) (execute_all close new_id es a).requests
  sent-IsJustified past close k es a before now =
      subst (All (IsJustified past)) (sym (execute_all-requests close new_id k es a))
        (All-append (IsJustified past) a.requests (sent es) before now)

  Step-IsSound : {c d : Console model} → Step model new_id matches c d → IsSound c → IsSound d
  unfolding PageIsSafe
  Step-IsSound {c} (on_page q p s e o stays) h =
      let me = c.app.world.session.user in
      let cluster = exposed_id q c.app.selection in
      let (safe, now) =
        (model p).step_safe me cluster c.past e s h.present (subst (PageIsSafe c.past) o h.page) in
      settle-IsSound _
        (sent-IsJustified c.past (λ a. a) (λ b. refl) ((model p).step c.past me cluster e s).1 c.app
          h.requests now)
        safe
  Step-IsSound {c} (on_shell q e) h =
      settle-IsSound _
        (sent-IsJustified c.past close_palette close_palette-requests
          (shell_effects (exposed_id q c.app.selection) e) c.app h.requests
          (shell_effects-IsJustified (exposed_id q c.app.selection) c.past e))
        h.page
  Step-IsSound {c} (quiet es none_sent stays) h =
      settle-IsSound _
        (sent-IsJustified c.past close_palette close_palette-requests es c.app h.requests
          (All-of_nil (IsJustified c.past) none_sent))
        h.page
  Step-IsSound (answered st) h = settle-IsSound _ h.requests h.page
  Step-IsSound (clusters_read q) h = settle-IsSound _ h.requests h.page
  Step-IsSound (followed to) h = settle-IsSound _ h.requests h.page

  Reach-IsSound : {c d : Console model} → IsSound c → Reach model new_id matches c d → IsSound d
  Reach-IsSound h here = h
  Reach-IsSound h (next r st) = Step-IsSound st (Reach-IsSound h r)

  console_launched-IsSound :
      (topics : List Topic) (roles : List RoleRecord) (token cluster : Option String)
      (path : String)
      → IsSound (console_launched model matches topics roles token cluster path)
  unfolding console_launched launched PageIsSafe
  console_launched-IsSound topics roles token cluster path = settle-IsSound _ tt tt

  pub reached-IsJustified :
      (topics : List Topic) (roles : List RoleRecord) (token cluster : Option String)
      (path : String) {c : Console model}
      → Reach model new_id matches
          (console_launched model matches topics roles token cluster path)
          c
      → All (IsJustified c.past) c.app.requests
  reached-IsJustified topics roles token cluster path r =
      (Reach-IsSound (console_launched-IsSound topics roles token cluster path) r).requests
