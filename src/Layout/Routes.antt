-- ===== src/Layout/Routes.antt =====
-- The table of routes (frontend/src/App.tsx) with `Protected` and `AdminRoute`
-- (components/rbac/AdminRoute.tsx). Whether the router takes a path for one of a pattern is the
-- argument `matches`.
use kafkaesque.Auth.Session.{protected, Session}
use kafkaesque.Auth.Guards.{admin_route, page, spinner, redirect}
use kafkaesque.Api.Types.{User}
use kafkaesque.Prelude.{[], find, Bool, ◌∷◌, List, Option, String, none, some}

pub data Page : Type 0 where
  dashboard clusters brokers topics messages schemas connect acls alerts consumers audit : Page
  profile users roles login : Page

pub data Pattern : Type 0 where
  literal : String → Pattern
  splat : String → Pattern

-- An element: a page, a page in an `AdminRoute`, or a `Navigate`.
pub data Element : Type 0 where
  show : Page → Element
  guarded : String → Page → Element
  navigate_to : String → Element

-- The routes inside the layout; the index route has the empty path.
unfoldable pub child_routes : List (Pattern × Element)
child_routes =
    (literal "", show dashboard)
    ∷ (literal "clusters", show clusters)
    ∷ (literal "brokers", show brokers)
    ∷ (literal "topics", show topics)
    ∷ (literal "messages", show messages)
    ∷ (literal "schemas", show schemas)
    ∷ (literal "connect", show connect)
    ∷ (literal "acls", show acls)
    ∷ (literal "alerts", show alerts)
    ∷ (literal "consumers", show consumers)
    ∷ (literal "consumer-groups", navigate_to "/consumers")
    ∷ (literal "audit", show audit)
    ∷ (splat "profile", show profile)
    ∷ (literal "admin/users", guarded "users.read" users)
    ∷ (literal "admin/roles", guarded "roles.read" roles)
    ∷ []

-- What a path of the layout shows.
pub data View : Type 0 where
  loading : View
  opened : Page → View
  moved : String → View
  blank : View

unfoldable pub element_view : Option User → Element → View
element_view me (show p) = opened p
element_view me (guarded permission p) = elim (admin_route me permission) [
  | page ↦ opened p
  | spinner ↦ loading
  | redirect to ↦ moved to
]
element_view me (navigate_to to) = moved to

module _ (matches : Pattern → String → Bool) where
  unfoldable pub route_view : Option User → String → View
  route_view me path = elim (find (λ r. matches r.0 path) child_routes) [
    | none ↦ blank
    | some r ↦ element_view me r.1
  ]

  -- The layout is in `Protected`.
  unfoldable pub view_at : Session → String → View
  view_at s path = elim (protected s) [
    | spinner ↦ loading
    | redirect to ↦ moved to
    | page ↦ route_view s.user path
  ]
