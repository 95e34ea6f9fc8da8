-- ===== src/App.antt =====
-- The providers that `App` nests (frontend/src/App.tsx) and `ClusterProvider` of the layout, as one
-- state, and what the effects of a component's handler do to it. The calls in flight, the cache of
-- queries and the timers are left to their events, the items of the layout in localStorage to Layout,
-- and a load of the page to the launch that follows.
use kafkaesque.Prelude.Texts.{before}
use kafkaesque.Pages.Login.{login_route}
use kafkaesque.Api.Transport.{Request}
use kafkaesque.Context.Toasts.{add, Toasts}
use kafkaesque.Context.Dialogs.{run, DialogState}
use kafkaesque.Ui.{
  invalidate, select_cluster, navigate, dialog, toast, close_command_palette, mutate, Effect,
  set_item, remove_item, log_in, refetch, load, later, on_close, log_out,
}
use kafkaesque.Context.Clusters.{set_cluster_id, Selection}
use kafkaesque.Layout.Routes.{view_at, loading, moved, login, opened, View, Pattern}
use kafkaesque.Prelude.{[], some, none, ◌==◌, if◌then◌else◌, ◌++◌, ◌∷◌, Bool, List, String}
use kafkaesque.Auth.Session.{logout, rendered, World, store_token}
pub mod Laws
pub mod Reachable
use kafkaesque.Auth.Guards.{page, redirect, spinner}

-- `path` is the address that the router shows; `requests` are those that mutations have started.
pub record AppState : Type 0 where
  pub world : World
  pub selection : Selection
  pub dialogs : DialogState
  pub toasts : Toasts
  pub path : String
  pub requests : List Request

-- `close` is what the property `onClose` of the component does; `new_id` is what `crypto.randomUUID`
-- gives for a message.
module _ (close : AppState → AppState) (new_id : String → String) where
  unfoldable pub execute : Effect → AppState → AppState
  execute (mutate r) a = record a { requests = a.requests ++ r ∷ [] }
  execute (toast kind message) a = record a { toasts = add (new_id message) kind message a.toasts }
  execute (dialog call) a = record a { dialogs = run call a.dialogs }
  execute (navigate to) a = record a { path = to }
  execute (select_cluster id) a = record a { selection = set_cluster_id id a.selection }
  execute on_close a = close a
  execute log_out a = record a {
    world = rendered a.world.session.token (record (a.world) { session = logout a.world.session });
  }
  execute (invalidate key) a = a
  execute (set_item name value) a =
      if name == "sf_token" then record a { world = store_token (some value) a.world } else a
  execute (remove_item name) a =
      if name == "sf_token" then record a { world = store_token none a.world } else a
  execute (log_in email password) a = a
  execute refetch a = a
  execute (load to) a = a
  execute (later n) a = a

  abbrev pub execute_all : List Effect → AppState → AppState
  execute_all [] a = a
  execute_all (e ∷ es) a = execute_all es (execute e a)

-- What the address shows, whose query the router leaves aside: the login page or its redirection, or the layout with its routes.
unfoldable pub shown_at : (Pattern → String → Bool) → AppState → View
shown_at matches a =
    let pathname = before "?" a.path in
    if pathname == "/login"
    then elim (login_route a.world.session) [
      | page ↦ opened login
      | redirect to ↦ moved to
      | spinner ↦ loading
    ]
    else view_at matches a.world.session pathname

-- The command palette of the layout closes by `closeCommandPalette`.
unfoldable pub close_palette : AppState → AppState
close_palette a = record a { dialogs = run close_command_palette a.dialogs }
