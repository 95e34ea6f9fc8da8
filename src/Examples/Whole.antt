-- ===== src/Examples/Whole.antt =====
-- The whole console at work.
use kafkaesque.Api.Client.{delete_user}
use kafkaesque.Ui.Table.{clickable}
use kafkaesque.Pages.Login.{login_route}
use kafkaesque.Console.Pages as ConsolePages
use kafkaesque.Console.Requests.{IsJustified}
use kafkaesque.Pages.Users.{confirm_delete}
use kafkaesque.Pages.Users.{run, press, is_self, row_actions}
use kafkaesque.Auth.Permissions.{wildcard, match_permission}
use kafkaesque.Auth.Guards.{effective, given, can, admin_route}
use kafkaesque.App.Reachable.{launched}
use kafkaesque.Auth.Session.{logged_in, initial, token_effect, mount, rendered, protected}
use kafkaesque.Prelude.Texts.{before}
use kafkaesque.App.{execute, shown_at}
use kafkaesque.Pages.Users
use kafkaesque.Console.Users.{users_step, on_users}
use kafkaesque.Pages.Users.Safety.{on_event, pressed, confirmed_delete}
use kafkaesque.Console.{resume, settle, on_page}
use kafkaesque.Layout.Routes.{element_view, child_routes, route_view, view_at, users}
use kafkaesque.Prelude.{All, refl, Memᴰ, ◌≡◌, true, false, [], ◌∷◌, none, some, String}
use kafkaesque.Api.Types.{User}
use kafkaesque.Layout.Routes.{Pattern, literal, splat}
use kafkaesque.Prelude.{Bool, ◌==◌}
use Prim.Native.String.{◌++◌ as ◌<>◌}
use kafkaesque.Context.Clusters.{Query}
use kafkaesque.Auth.Session
use kafkaesque.Dialogs.EditUser.{UserRow}
use kafkaesque.Console.{on_page, Console, console_launched, Reach, here, next, answered, followed}
use kafkaesque.Console.Pages.{page_model}

-- A user who may delete accounts, and an account.
abbrev ines : User
ines = record {
  id = "u4";
  email = "ines@example.org";
  display_name = "Ines";
  role = "SUPPORT";
  is_active = some true;
  last_login_at = none;
  password_changed_at = none;
  created_at = none;
  permissions = some ("users.read" ∷ "users.delete" ∷ []);
}

abbrev jan : UserRow
jan = record {
  id = "u5";
  display_name = "Jan";
  email = "jan@example.org";
  role = "VIEWER";
  is_active = some true;
  last_login = none;
}

abbrev no_id : String → String
no_id s = s

-- A router that takes the paths that the console itself spells.
abbrev exact : Pattern → String → Bool
exact (literal p) path = ("/" <> p) == path
exact (splat p) path = ("/" <> p) == path

abbrev unread : Query
unread = record { is_loading = false; items = none }

abbrev begin : Console page_model
begin = console_launched page_model exact [] [] none none "/login"

record Run : Type 0 where
  last : Console page_model
  reach : Reach page_model no_id exact begin last

abbrev signed_in : Run
signed_in = record {
  last = _;
  reach = next (next here (answered (Session.login_answers _ "t1" ines))) (followed "/admin/users");
}

asked : Run
unfolding settle resume shown_at before view_at protected rendered console_launched launched mount
    token_effect initial logged_in route_view child_routes element_view admin_route can given
    effective match_permission wildcard row_actions is_self users_step on_event press run
    login_route
asked = record {
  last = _;
  reach = next signed_in.reach (
      on_page unread users Users.start
        (on_users (pressed jan _ (Memᴰ.tail (Memᴰ.tail (Memᴰ.tail (Memᴰ.tail (Memᴰ.head refl)))))))
        refl refl);
}

-- The request to delete the account is on its way.
confirmed : Run
unfolding settle resume shown_at before view_at protected rendered console_launched launched mount
    token_effect initial logged_in route_view child_routes element_view admin_route can given
    effective match_permission wildcard row_actions is_self users_step on_event press run
    login_route asked confirm_delete clickable
confirmed = record {
  last = _;
  reach = next asked.reach (
      on_page unread users (record Users.start { delete_target = some jan })
        (on_users (confirmed_delete false)) refl refl);
}

confirmed-requests : confirmed.last.app.requests ≡ delete_user "u5" ∷ []
unfolding settle resume shown_at before view_at protected rendered console_launched launched mount
    token_effect initial logged_in route_view child_routes element_view admin_route can given
    effective match_permission wildcard row_actions is_self users_step on_event press run
    login_route asked confirmed confirm_delete clickable execute
confirmed-requests = refl

requests-IsJustified_example : All (IsJustified confirmed.last.past) confirmed.last.app.requests
requests-IsJustified_example =
    ConsolePages.requests-IsJustified no_id exact none none [] [] "/login" confirmed.reach
