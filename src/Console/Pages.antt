-- ===== src/Console/Pages.antt =====
-- The pages of the console, and what they and the dialogs of the layout ever send.
use kafkaesque.Console.{PageModel, Console, console_launched, Reach}
use kafkaesque.Console.Requests.{IsJustified}
use kafkaesque.Console.Safety.{reached-IsJustified}
use kafkaesque.Console.Users.Laws.{users_model}
use kafkaesque.Console.Roles.{roles_model}
use kafkaesque.Console.Topics.{topics_model}
use kafkaesque.Console.Connect.{connect_model}
use kafkaesque.Console.Clusters.{clusters_model}
use kafkaesque.Console.Acls.{acls_model}
use kafkaesque.Console.Alerts.{alerts_model}
use kafkaesque.Console.Readers.{
  dashboard_model, brokers_model, messages_model, consumers_model, audit_model, login_model,
}
use kafkaesque.Console.Forms.{schemas_model, profile_model}
use kafkaesque.Layout.Routes.{Page, Pattern}
use kafkaesque.Api.Types.{Topic, RoleRecord}
use kafkaesque.Prelude.{List, Bool, All, Option, String}

abbrev pub page_model : Page → PageModel
page_model Page.topics = topics_model
page_model Page.users = users_model
page_model Page.roles = roles_model
page_model Page.connect = connect_model
page_model Page.clusters = clusters_model
page_model Page.acls = acls_model
page_model Page.alerts = alerts_model
page_model Page.schemas = schemas_model
page_model Page.profile = profile_model
page_model Page.dashboard = dashboard_model
page_model Page.brokers = brokers_model
page_model Page.messages = messages_model
page_model Page.consumers = consumers_model
page_model Page.audit = audit_model
page_model Page.login = login_model

-- Whatever the users do on all pages and in the dialogs of the layout, wherever they go, whatever the
-- server answers and whoever signs in and out meanwhile, in any order: each request to change something
-- that the console has sent since it was loaded is one of those that `IsJustified` lists. Where that
-- asks for a permission, a user that the session had could do it; where it is about an account to
-- delete, disable or enable, the account was another one than that user's; a topic that is deleted was
-- listed by the server as one that is not internal, and a role as one that is not the system's and has no
-- users. Sign-ins and loads of the page are no such requests.
pub requests-IsJustified :
    (new_id : String → String) (matches : Pattern → String → Bool) (token cluster : Option String)
    (topics : List Topic) (roles : List RoleRecord) (path : String) {c : Console page_model}
    → Reach page_model new_id matches
        (console_launched page_model matches topics roles token cluster path)
        c
    → All (IsJustified c.past) c.app.requests
requests-IsJustified new_id matches token cluster topics roles path r =
    reached-IsJustified page_model new_id matches topics roles token cluster path r
