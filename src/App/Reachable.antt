-- ===== src/App/Reachable.antt =====
-- What the whole console can come to: the effects of handlers, the answers of the session's calls and the
-- loads of the clusters, in any order.
use kafkaesque.Auth.Session.Invariant.{protected-auth_headers}
use kafkaesque.Api.Transport.{auth_headers}
use kafkaesque.Context.Dialogs.{default_state}
use kafkaesque.Layout.Routes.{moved, loading, View, route_view, opened, Page, Pattern, view_at}
use kafkaesque.App.{execute_all, AppState, close_palette, execute}
use kafkaesque.Prelude.{
  Bool-cases, inl, inr, none, ◌==◌, false, true, refl, some, ◌∷◌, ◌≡◌, [], Bool, List, Option,
  String,
}
use Prim.Native.String.{◌++◌ as ◌<>◌}
use kafkaesque.Context.Clusters.{sync, Query, initial}
use kafkaesque.Auth.Session.{protected, Step, here, Reach, World, Session, mount}
use kafkaesque.Ui.{
  Effect, mutate, toast, dialog, navigate, select_cluster, on_close, log_out, invalidate, set_item,
  remove_item, log_in, refetch, load, later,
}
use kafkaesque.Auth.Session.{next, logs_out, token_stored}
use kafkaesque.Auth.Guards.{Outcome, page, redirect, spinner}

-- The state after the page was loaded at an address, with what localStorage held.
unfoldable pub launched : Option String → Option String → String → AppState
launched token cluster path = record {
  world = mount token;
  selection = initial cluster;
  dialogs = default_state;
  toasts = record { shown = []; timers = [] };
  path = path;
  requests = [];
}

-- The browser is not asked to load a page: that ends what is reached, and launches the console anew.
abbrev pub stays : List Effect → Bool
stays [] = true
stays (load to ∷ es) = false
stays (_ ∷ es) = stays es

pub data AppStep (new_id : String → String) (a : AppState) : AppState → Type 0 where
  handled :
      (es : List Effect)
      → stays es ≡ true
      → AppStep new_id a (execute_all close_palette new_id es a)
  answered : {w : World} → Step a.world w → AppStep new_id a (record a { world = w })
  clusters_read : (q : Query) → AppStep new_id a (record a { selection = sync q a.selection })
  followed : (to : String) → AppStep new_id a (record a { path = to })

pub data AppReach (new_id : String → String) (a : AppState) : AppState → Type 0 where
  still : AppReach new_id a a
  then_step : {b c : AppState} → AppReach new_id a b → AppStep new_id b c → AppReach new_id a c

execute-Reach :
    (new_id : String → String) {w : World} (e : Effect) (a : AppState)
    → Reach w a.world
    → Reach w (execute close_palette new_id e a).world
unfolding execute close_palette
execute-Reach new_id (mutate r) a h = h
execute-Reach new_id (toast kind message) a h = h
execute-Reach new_id (dialog call) a h = h
execute-Reach new_id (navigate to) a h = h
execute-Reach new_id (select_cluster id) a h = h
execute-Reach new_id on_close a h = h
execute-Reach new_id log_out a h = next h (logs_out a.world)
execute-Reach new_id (invalidate key) a h = h
execute-Reach new_id (set_item name value) a h = elim (Bool-cases (name == "sf_token")) [
  | inl e ↦ rw e (next h (token_stored a.world (some value)))
  | inr e ↦ rw e h
]
execute-Reach new_id (remove_item name) a h = elim (Bool-cases (name == "sf_token")) [
  | inl e ↦ rw e (next h (token_stored a.world none))
  | inr e ↦ rw e h
]
execute-Reach new_id (log_in email password) a h = h
execute-Reach new_id refetch a h = h
execute-Reach new_id (load to) a h = h
execute-Reach new_id (later n) a h = h

execute_all-Reach :
    (new_id : String → String) {w : World} (es : List Effect) (a : AppState)
    → Reach w a.world
    → Reach w (execute_all close_palette new_id es a).world
execute_all-Reach new_id [] a h = h
execute_all-Reach new_id (e ∷ es) a h =
    execute_all-Reach new_id es (execute close_palette new_id e a) (execute-Reach new_id e a h)

-- Each step of the console is none of the session, or some of its steps.
AppReach-Reach :
    (new_id : String → String) {a b : AppState} → AppReach new_id a b → Reach a.world b.world
AppReach-Reach new_id still = here
AppReach-Reach new_id (then_step r (handled es k)) =
    execute_all-Reach new_id es _ (AppReach-Reach new_id r)
AppReach-Reach new_id (then_step r (answered st)) = next (AppReach-Reach new_id r) st
AppReach-Reach new_id (then_step r (clusters_read q)) = AppReach-Reach new_id r
AppReach-Reach new_id (then_step r (followed to)) = AppReach-Reach new_id r

outcome-page :
    (o : Outcome) (v : View) (p : Page)
    → elim o as (λ _. View) [ page ↦ v | spinner ↦ loading | redirect to ↦ moved to ] ≡ opened p
    → o ≡ page
outcome-page page v p h = refl
outcome-page spinner v p h = absurd (cc)
outcome-page (redirect to) v p h = absurd (cc)

opened-protected :
    (matches : Pattern → String → Bool) (s : Session) (to : String) (p : Page)
    → view_at matches s to ≡ opened p
    → protected s ≡ page
unfolding view_at
opened-protected matches s to p h = outcome-page (protected s) (route_view matches s.user to) p h

-- Whatever the handlers of all components do without loading the page anew or storing a token past the
-- state, whatever the server answers and wherever the user goes: a page of the layout is shown only to
-- a session that has a token, and its requests carry that token.
opened-auth_headers :
    (new_id : String → String) (matches : Pattern → String → Bool) (token cluster : Option String)
    (path : String) {a : AppState} (to : String) (p : Page)
    → AppReach new_id (launched token cluster path) a
    → a.world.bypassed ≡ false
    → view_at matches a.world.session to ≡ opened p
    → (t : String) × (a.world.session.token ≡ some t)
      × (auth_headers a.world.session.stored ≡ ("Authorization", "Bearer " <> t) ∷ [])
unfolding launched
opened-auth_headers new_id matches token cluster path {a} to p r b h =
    protected-auth_headers token (AppReach-Reach new_id r) b
      (opened-protected matches a.world.session to p h)
