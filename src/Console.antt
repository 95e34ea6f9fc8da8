-- ===== src/Console.antt =====
-- The whole console at work: the page that is open with its state, the dialogs of the layout, and the
-- providers. A page is opened anew when the address shows another one, and keeps its state else.
pub mod Requests
pub mod Shell
pub mod Safety
pub mod Users
pub mod Roles
pub mod Topics
pub mod Connect
pub mod Clusters
pub mod Acls
pub mod Alerts
pub mod Forms
pub mod Readers
pub mod Pages
use mathlib.Core.Logic.{dite}
use kafkaesque.Prelude.{Bool, true, ◌≡◌, List, [], ◌∷◌, Option, none, some, String, Memᴰ, All}
use kafkaesque.Ui.{Effect, sent}
use kafkaesque.Api.Types.{User, Topic, RoleRecord}
use kafkaesque.App.{AppState, execute_all, shown_at, close_palette}
use kafkaesque.App.Reachable.{launched, stays}
use kafkaesque.Auth.Session.{World}
use kafkaesque.Auth.Session
use kafkaesque.Context.Clusters.{Query, sync, exposed_id}
use kafkaesque.Layout.Routes.{
  Page, Pattern, View, loading, opened, moved, blank, dashboard, clusters,
}
use kafkaesque.Console.Requests.{note, Past, IsJustified}
use kafkaesque.Console.Shell.{ShellEvent, shell_effects}

-- What the console asks of a page: its state and its events, which a user's rights, the selected cluster
-- and what the server lists decide, and that it only sends what is justified.
pub record PageModel : Type 1 where
  pub State : Type 0
  pub start : State
  pub Event : Past → Option User → String → Type 0
  pub step :
      (past : Past) (me : Option User) (cluster : String)
      → Event past me cluster
      → State
      → State × List Effect
  pub IsSafe : Past → State → Type 0
  pub start_safe : (past : Past) → IsSafe past start
  pub safe_cons :
      (me : Option User) (past : Past) (s : State) → IsSafe past s → IsSafe (note me past) s
  pub step_safe :
      (me : Option User) (cluster : String) (past : Past) (e : Event past me cluster) (s : State)
      → Memᴰ me past.users
      → IsSafe past s
      → IsSafe past (step past me cluster e s).0
        × All (IsJustified past) (sent (step past me cluster e s).1)

Page-discrete : Discrete Page
Page-discrete = hlevel

pub record Console (model : Page → PageModel) : Type 0 where
  pub app : AppState
  pub open_page : Option ((p : Page) × (model p).State)
  pub past : Past

module _ (model : Page → PageModel) where
  unfoldable pub resume :
      View → Option ((p : Page) × (model p).State) → Option ((p : Page) × (model p).State)
  unfolding Page-discrete
  resume (opened p) none = some (p, (model p).start)
  resume (opened p) (some (q, s)) = elim (Page-discrete q p) [
    | yes e ↦ some (q, s)
    | no n ↦ some (p, (model p).start)
  ]
  resume loading o = none
  resume (moved to) o = none
  resume blank o = none

  -- After each event the address decides which page is open; the user of the session is noted.
  unfoldable pub settle : (Pattern → String → Bool) → Console model → Console model
  settle matches c = record {
    app = c.app;
    open_page = resume (shown_at matches c.app) c.open_page;
    past = note c.app.world.session.user c.past;
  }

  unfoldable pub console_launched :
      (Pattern → String → Bool)
      → List Topic
      → List RoleRecord
      → Option String
      → Option String
      → String
      → Console model
  console_launched matches topics roles token cluster path = settle matches (record {
    app = launched token cluster path;
    open_page = none;
    past = record { users = []; topics = topics; roles = roles };
  })

-- `new_id` is what `crypto.randomUUID` gives for a message; `matches` is the router's test of a path.
pub data Step (model : Page → PageModel) (new_id : String → String)
    (matches : Pattern → String → Bool) (c : Console model) : Console model → Type 0 where
  on_page :
      (q : Query) (p : Page) (s : (model p).State)
      (e : (model p).Event c.past c.app.world.session.user (exposed_id q c.app.selection))
      → c.open_page ≡ some (p, s)
      → stays ((model p).step c.past c.app.world.session.user (exposed_id q c.app.selection) e s).1
        ≡ true
      → Step model new_id matches c (
          settle model matches (record {
            app =
                execute_all
                  (λ a. a)
                  new_id
                  ((model p).step c.past c.app.world.session.user
                    (exposed_id q c.app.selection)
                    e
                    s).1
                  c.app;
            open_page = some (
              p,
              ((model p).step c.past c.app.world.session.user (exposed_id q c.app.selection) e s).0,
            );
            past = c.past;
          }))
  on_shell :
      (q : Query) (e : ShellEvent)
      → Step model new_id matches c (
          settle model matches (record c {
            app =
                execute_all close_palette new_id
                  (shell_effects (exposed_id q c.app.selection) e)
                  c.app;
          }))
  -- A handler that sends nothing: of the palette, the menus and the layout, and the callbacks of the
  -- layout's dialogs.
  quiet :
      (es : List Effect)
      → sent es ≡ []
      → stays es ≡ true
      → Step model new_id matches c
          (settle model matches (record c { app = execute_all close_palette new_id es c.app }))
  answered :
      {w : World}
      → Session.Step c.app.world w
      → Step model new_id matches c
          (settle model matches (record c { app = record (c.app) { world = w } }))
  clusters_read :
      (q : Query)
      → Step model new_id matches c (
          settle model matches
            (record c { app = record (c.app) { selection = sync q c.app.selection } }))
  followed :
      (to : String)
      → Step model new_id matches c
          (settle model matches (record c { app = record (c.app) { path = to } }))

pub data Reach (model : Page → PageModel) (new_id : String → String)
    (matches : Pattern → String → Bool) (c : Console model) : Console model → Type 0 where
  here : Reach model new_id matches c c
  next :
      {d e : Console model}
      → Reach model new_id matches c d
      → Step model new_id matches d e
      → Reach model new_id matches c e
