-- ===== src/Lib.antt =====
-- Kafkaesque: the web console's own logic (frontend/src).
--
-- The console is a React application over an HTTP API. Its parts, and the files about them:
--
--   * Api: the client (frontend/src/api/client.ts). Api.Types has its records, Api.Client one function
--     for each method of `api`, giving the request that the method sends, Api.Transport the headers, the
--     call of `fetch` and the reading of an answer, Api.Encode `encodeURIComponent` and the encoding of
--     search parameters, Api.Json the values of bodies. Api.Paths is about the paths of requests.
--   * Auth: permissions (frontend/src/auth/permissions.ts), the hook and the guards that ask them
--     (auth/usePermissions.ts, components/rbac/PermissionGuard.tsx, components/rbac/AdminRoute.tsx), and
--     the session (stores/auth.tsx, `Protected` of App.tsx). A session is a record; its world has the
--     open calls, and `Step` is the relation of what may happen next, in any order. Its flag `bypassed`
--     says that the login page stored a token past the state, until the page loads again.
--   * Context: the providers that all pages share: the selected cluster, the dialogs, the toasts
--     (frontend/src/context).
--   * Metrics: the history of readings (frontend/src/hooks/useMetricHistory.ts).
--   * Palette: the command palette (frontend/src/components/CommandPalette.tsx): its entries, keys and
--     rows.
--   * Dialogs: the forms (frontend/src/components/dialogs).
--   * Pages: all pages but the dashboard (frontend/src/pages), one module for each.
--   * Dashboard: the dashboard and its widgets (pages/DashboardPage.tsx, components/dashboard).
--   * Layout: what surrounds the pages: the sidebar (layouts/AppLayout.tsx), the table of routes
--     (App.tsx), the menu of the user, the notifications, the badges (components/rbac,
--     components/NotificationBell.tsx).
--   * App: the providers as one state, and what the effects of a handler do to it: in it, components
--     act on each other.
--   * Queries: what the components read: each `useQuery` as the key, the request, the condition and the
--     interval that it gives to react-query; what a success has read again.
--   * Console: the whole console at work. Console.PageModel is the interface of a page: its state, its
--     events and the laws that it keeps; Console.Step lets the events of the open page, of the dialogs
--     of the layout, of the session and of the address happen in any order. Console.Requests lists the
--     requests that may be sent, with the permissions that they need; its record Past has the users of the
--     session and the topics and roles that the server lists, which the requests are justified by.
--   * Ui: what the components have in common: the effects of a handler, and the shared controls
--     (frontend/src/components/ui, components/ClusterEmptyState.tsx), drawers, the focus of a dialog,
--     small hooks (frontend/src/hooks).
--   * Prelude: lists over native numbers, the methods on texts that the source uses, decimal numerals.
--   * Examples: the theorems at concrete inputs.
--
-- How a component is modelled: its `useState` variables and references are the fields of one record;
-- each handler is a function from that record, and from the arguments that it has in the source, to the
-- new record and the list of its effects (requests that start, toasts, navigation, invalidated
-- queries), in order. The callbacks of a request are handlers of their own, so an answer may come after
-- any other event. The flags of a mutation (`isPending`), the answers of queries, the time, random
-- identifiers and whether `JSON.parse` takes a text are arguments. A button that is disabled or
-- loading has no handler to run.
--
-- Names are those of the source in lower case with underscores: `mergeMessages` is `merge_messages`.
-- A text is a sequence of Unicode scalars; where the source counts UTF-16 units, the count is written
-- out. The change of case is that of ASCII letters, and of the two other letters whose upper case is one.
-- Numbers of the source are natural numbers, without the rounding of large ones; the percentages of the dashboard are exact quotients. Recursion is
-- structural; only the decimal numeral of n runs on fuel, which is n + 1, one more than it has digits at
-- most. In Console the forms of a dialog are in any state when their buttons are pressed, which is more
-- than the user can bring them to, and handlers that send nothing may do anything to the providers.
--
-- Not modelled: markup, styles and the drawing of charts; the attribute autoFocus and the clipboard;
-- react-query, the router and the browser, whose effects are arguments and events; the backend
-- (backend), in another language; deployment and scripts (deploy, scripts).
pub mod Prelude
pub mod Queries
pub mod App
pub mod Console
pub mod Api
pub mod Ui
pub mod Auth
pub mod Context
pub mod Dashboard
pub mod Layout
pub mod Metrics
pub mod Palette
pub mod Dialogs
pub mod Pages
pub mod Examples
