-- ===== src/Examples/Surroundings.antt =====
-- The layout, its routes, the login and what the providers do.
use kafkaesque.Prelude.Texts.{before}
use kafkaesque.Auth.Permissions.{wildcard, match_permission}
use kafkaesque.Layout.UserMenu.{links, sign_out}
use kafkaesque.Ui.{◌>>◌}
use kafkaesque.Layout.Routes.{login, opened, route_view, view_at}
use kafkaesque.Palette.{target, navigate_to_result, Palette}
use kafkaesque.App.{close_palette, AppState, execute_all, shown_at}
use kafkaesque.Pages.Login.{login_route}
use kafkaesque.Prelude.{String, Memᴰ, none, false, refl, true, ◌↔◌, ◌∷◌, [], some, ◌≡◌, all}
use kafkaesque.Layout.Laws.{documented, is_opened}
use kafkaesque.Layout.Navigation.{
  is_visible, admin_nav, main_nav, visible_main_nav, NavItem, navigation,
}
use kafkaesque.Auth.Session.{Session, protected}
use kafkaesque.Auth.Guards.{
  can_access_administration, given, effective, can, page, redirect, spinner,
}
use kafkaesque.Context.Clusters.{Query, exposed_id}
use kafkaesque.Api.Types.{Cluster, SearchResult, User, topic}
use kafkaesque.Layout.Laws as LayoutLaws
use kafkaesque.Layout.Reload
use kafkaesque.Pages.Login.Laws as LoginLaws
use kafkaesque.App.Laws as AppLaws
use kafkaesque.Layout.{sidebar_key, theme_key, mounted, start}

abbrev helen : User
helen = record {
  id = "u3";
  email = "helen@example.org";
  display_name = "Helen";
  role = "VIEWER";
  is_active = some true;
  last_login_at = none;
  password_changed_at = none;
  created_at = none;
  permissions = some ("users.read" ∷ "topic.read" ∷ []);
}

abbrev inside : Session
inside = record { user = some helen; token = some "t1"; loading = false; stored = some "t1" }

abbrev users_item : NavItem
users_item = record { to = "/admin/users"; label = "Users"; permission = some "users.read" }

inside-page : protected inside ≡ page
unfolding protected
inside-page = refl

users_item-shown : Memᴰ users_item (navigation inside.user)
unfolding navigation visible_main_nav main_nav admin_nav is_visible can effective given
    match_permission can_access_administration wildcard before
users_item-shown =
    Memᴰ.tail (Memᴰ.tail (Memᴰ.tail (Memᴰ.tail (Memᴰ.tail (Memᴰ.tail (Memᴰ.head refl))))))

view_at-navigation_example : is_opened (view_at documented inside "/admin/users") ≡ true
view_at-navigation_example =
    LayoutLaws.view_at-navigation documented (λ p path h. refl) inside {i = users_item} inside-page
      users_item-shown

menu_links-opened_iff_example :
    (all (λ l. is_opened (route_view documented (some helen) l.0)) (links (some helen)) ≡ true)
    ↔ (can (some helen) "users.read" ≡ can (some helen) "roles.read")
menu_links-opened_iff_example = LayoutLaws.menu_links-opened_iff documented (λ p path h. refl) helen

start-press_all_example :
    let (s, es) =
      (mounted >> Reload.press_all (Reload.press_theme ∷ Reload.press_open ∷ []))
        (start none (some "true")) in
    start (Reload.stored theme_key none es) (Reload.stored sidebar_key (some "true") es)
    ≡ record s { mobile_open = false }
start-press_all_example =
    Reload.start-press_all none (some "true") (Reload.press_theme ∷ Reload.press_open ∷ [])

login_route-protected_example :
    ((login_route inside ≡ redirect "/") ↔ (protected inside ≡ page))
    × ((protected inside ≡ redirect "/login")
        ↔ ((login_route inside ≡ page) × (inside.loading ≡ false)))
    × (inside.loading ≡ true → (login_route inside ≡ page) × (protected inside ≡ spinner))
login_route-protected_example = LoginLaws.login_route-protected inside

abbrev at_topics : AppState
at_topics = record {
  world = record { session = inside; checks = 1; refreshes = 0; bypassed = false };
  selection = record { cluster_id = "c1"; stored = some "c1" };
  dialogs = record {
    command_palette = true;
    create_topic = false;
    add_cluster = false;
    produce_message = false;
    produce_topic = none;
  };
  toasts = record { shown = []; timers = [] };
  path = "/topics";
  requests = [];
}

shown_at-sign_out_example :
    shown_at documented (execute_all close_palette (λ m. m) (sign_out true).1 at_topics)
    ≡ opened login
shown_at-sign_out_example =
    AppLaws.shown_at-sign_out close_palette (λ m. m) documented true at_topics

abbrev found_topic : SearchResult
found_topic = record { kind = topic; id = "t"; label = "orders"; cluster_id = some "c2" }

abbrev typed : Palette
typed = record { query = "ord"; recent = []; selected = some 0 }

abbrev ready : String → Cluster
ready id = record {
  id = id;
  name = id;
  bootstrap_servers = "kafka:9092";
  environment = "STAGING";
  status = "CONNECTED";
  kafka_version = none;
  last_error = none;
  schema_registry_url = none;
  connect_url = none;
  tls = none;
  sasl_mechanism = none;
  last_connected_at = none;
  created_at = none;
}

-- Both clusters are there.
abbrev both_clusters : Query
both_clusters = record { is_loading = false; items = some (ready "c1" ∷ ready "c2" ∷ []) }

navigate_to_result-execute_all_example :
    let b =
      execute_all close_palette
        (λ m. m)
        (navigate_to_result
          (exposed_id both_clusters at_topics.selection)
          "ord"
          found_topic
          typed).1
        at_topics in
    (b.selection.cluster_id ≡ AppLaws.cluster_of (some "c2") "c1")
    × (b.path ≡ target found_topic)
    × (b.dialogs.command_palette ≡ false)
navigate_to_result-execute_all_example =
    AppLaws.navigate_to_result-execute_all (λ m. m) both_clusters "ord" found_topic typed at_topics
