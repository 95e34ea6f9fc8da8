-- ===== src/App/Laws.antt =====
-- Components that act on each other through the providers.
use kafkaesque.Auth.Session.Invariant.{rendered-token}
use kafkaesque.Ui.{on_close, navigate}
use kafkaesque.Api.Types.{SearchResult}
use kafkaesque.Prelude.Texts.{is_blank, before}
use kafkaesque.Layout.Routes.{login, opened, Pattern}
use kafkaesque.Prelude.{
  is_some, if◌then◌else◌, true, refl, inr, eq_iff, sym, inl, ◌==◌, ap, [], ◌∷◌, ◌++◌, Option, false,
  arith, Bool-cases, some, none, ◌≡◌, Bool, String,
}
use kafkaesque.Auth.Session.{Session, World, rendered, logout}
use kafkaesque.Context.Clusters.{set_cluster_id, exposed_id, selected_cluster, Query, Selection}
use kafkaesque.Pages.Login.{login_route}
use kafkaesque.Layout.UserMenu.{sign_out}
use kafkaesque.Palette.{switch_cluster, target, Palette, navigate_to_result}
use kafkaesque.App.{page, execute_all, AppState, close_palette, execute, shown_at}
use kafkaesque.Context.Dialogs

signed_out : World → World
signed_out w = rendered w.session.token (record w { session = logout w.session })

signed_out-token : (w : World) → (signed_out w).session.token ≡ none
unfolding signed_out logout
signed_out-token w = rendered-token w.session.token (record w { session = logout w.session })

login_route-signed_out : (s : Session) → s.token ≡ none → login_route s ≡ page
unfolding login_route
login_route-signed_out s h = ground (arith, h)

-- To sign out in the user's menu ends at the login page, whatever the state was and while whichever
-- calls are open: it is shown, and sends nobody back.
pub shown_at-sign_out :
    (close : AppState → AppState) (new_id : String → String) (matches : Pattern → String → Bool)
    (menu : Bool) (a : AppState)
    → shown_at matches (execute_all close new_id (sign_out menu).1 a) ≡ opened login
unfolding shown_at execute sign_out before signed_out
shown_at-sign_out close new_id matches menu a =
    let w = a.world in
    let there : login_route
          (rendered w.session.token (record w { session = logout w.session })).session
        ≡ page =
      login_route-signed_out (signed_out w).session (signed_out-token w) in
    ground (arith, there)

-- The cluster of a result, where it has one.
abbrev pub cluster_of : Option String → String → String
cluster_of none before = before
cluster_of (some id) before = if is_blank id then before else id

exposed-same :
    (q : Query) (s : Selection) (id : String)
    → is_blank id ≡ false
    → (id == exposed_id q s) ≡ true
    → s.cluster_id ≡ id
unfolding exposed_id
exposed-same q s id n e = elim (Bool-cases (is_some (selected_cluster q s))) [
  | inl h ↦ sym ((eq_iff id s.cluster_id).0 (rw h at e))
  | inr h ↦ absurd (cc (ap is_blank ((eq_iff id "").0 (rw h at e))))
]

followed :
    (new_id : String → String) (q : Query) (o : Option String) (to : String) (a : AppState)
    → let b =
        execute_all close_palette new_id
          (switch_cluster (exposed_id q a.selection) o ++ navigate to ∷ on_close ∷ [])
          a in
      (b.selection.cluster_id ≡ cluster_of o a.selection.cluster_id)
      × (b.path ≡ to)
      × (b.dialogs.command_palette ≡ false)
unfolding execute close_palette set_cluster_id Dialogs.run
followed new_id q none to a = (refl, refl, refl)
followed new_id q (some k) to a = elim (Bool-cases (is_blank k)) [
  | inl n ↦ rw n (refl, refl, refl)
  | inr n ↦ elim (Bool-cases (k == exposed_id q a.selection)) [
    | inl e ↦ rw (n, e) (exposed-same q a.selection k n e, refl, refl)
    | inr e ↦ rw (n, e) (refl, refl, refl)
  ]
]

-- To follow a search result in the palette selects the cluster of the result, if it has one, and keeps
-- the selection else, opens the address of the result and closes the palette, in one go.
pub navigate_to_result-execute_all :
    (new_id : String → String) (q : Query) (debounced : String) (r : SearchResult) (p : Palette)
    (a : AppState)
    → let b =
        execute_all close_palette new_id
          (navigate_to_result (exposed_id q a.selection) debounced r p).1
          a in
      (b.selection.cluster_id ≡ cluster_of r.cluster_id a.selection.cluster_id)
      × (b.path ≡ target r)
      × (b.dialogs.command_palette ≡ false)
unfolding navigate_to_result
navigate_to_result-execute_all new_id q debounced r p a =
    followed new_id q r.cluster_id (target r) a
