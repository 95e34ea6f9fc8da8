-- ===== src/Layout.antt =====
-- What surrounds the pages: `AppLayout` (frontend/src/layouts/AppLayout.tsx) with its state and its
-- header, and in the modules below it the navigation, the routes, the menus and the badges.
use kafkaesque.Prelude.Texts.{to_lower, some_text, to_upper}
use kafkaesque.Ui.{open_command_palette, dialog, navigate, set_item, ◌>>◌, Effect}
use kafkaesque.Api.Types.{Cluster, User}
use kafkaesque.Prelude.{
  map, none, ◌&&◌, ◌==◌, ◌||◌, ◌∷◌, [], if◌then◌else◌, is_empty, not, some, true, false, or_else,
  Bool, List, Option, String,
}
pub mod Navigation
pub mod Routes
pub mod UserMenu
pub mod Bell
pub mod Badges
pub mod Laws
pub mod Reload

pub record LayoutState : Type 0 where
  pub dark : Bool
  pub collapsed : Bool
  pub mobile_open : Bool

abbrev pub theme_key : String
theme_key = "sf_theme"

abbrev pub sidebar_key : String
sidebar_key = "sf_sidebar_collapsed"

-- `localStorage.getItem(…) === …`
abbrev is_item : String → Option String → Bool
is_item text none = false
is_item text (some t) = t == text

-- The state of the first render, from the two items of localStorage.
unfoldable pub start : Option String → Option String → LayoutState
start theme sidebar = record {
  dark = is_item "dark" theme;
  collapsed = is_item "true" sidebar;
  mobile_open = false;
}

-- The effects on `[dark]`, `[collapsed]` and `[location.pathname]`.
unfoldable pub keep_theme : LayoutState → LayoutState × List Effect
keep_theme s = (s, set_item theme_key (if s.dark then "dark" else "light") ∷ [])

unfoldable pub keep_collapsed : LayoutState → LayoutState × List Effect
keep_collapsed s = (s, set_item sidebar_key (if s.collapsed then "true" else "false") ∷ [])

unfoldable pub path_changed : LayoutState → LayoutState × List Effect
path_changed s = (record s { mobile_open = false }, [])

-- All effects run after the first render.
unfoldable pub mounted : LayoutState → LayoutState × List Effect
mounted = keep_theme >> keep_collapsed >> path_changed

-- The listener on `keydown`.
unfoldable pub key_down : Bool → Bool → String → LayoutState → LayoutState × List Effect
key_down meta ctrl key s =
    if (meta || ctrl) && key == "k" then (s, dialog open_command_palette ∷ []) else (s, [])

unfoldable pub press_brand : LayoutState → LayoutState × List Effect
press_brand s = (s, navigate "/" ∷ [])

-- The buttons to collapse the sidebar and to change the theme, with the effect that follows.
unfoldable pub toggle_collapsed : LayoutState → LayoutState × List Effect
toggle_collapsed s = keep_collapsed (record s { collapsed = not s.collapsed })

unfoldable pub toggle_theme : LayoutState → LayoutState × List Effect
toggle_theme s = keep_theme (record s { dark = not s.dark })

unfoldable pub open_menu : LayoutState → LayoutState × List Effect
open_menu s = (record s { mobile_open = true }, [])

unfoldable pub close_menu : LayoutState → LayoutState × List Effect
close_menu s = (record s { mobile_open = false }, [])

unfoldable pub press_search : LayoutState → LayoutState × List Effect
press_search s = (s, dialog open_command_palette ∷ [])

-- `health.data?.status || selectedCluster?.status || 'UNKNOWN'`
unfoldable pub cluster_health_status : Option String → Option Cluster → String
cluster_health_status health selected =
    let status : Option String = elim selected [ none ↦ none | some c ↦ some c.status ] in
    or_else (some_text health) (or_else (some_text status) "UNKNOWN")

-- The mark of the cluster's state in the sidebar: whether it is the good one, and the text.
unfoldable pub health_mark : Option String → Option Cluster → Bool × String
health_mark health selected =
    let status = to_upper (cluster_health_status health selected) in (status == "HEALTHY", status)

-- The options of the header's selection, value and label, and whether it is disabled.
unfoldable pub cluster_options : List Cluster → List (String × String)
cluster_options cs =
    ("", if is_empty cs then "No clusters" else "Select cluster…") ∷ map (λ c. (c.id, c.name)) cs

unfoldable pub selection_disabled : List Cluster → Bool
selection_disabled cs = is_empty cs

-- What the sidebar says of the user.
unfoldable pub user_name : User → String
user_name u = or_else (some_text (some u.display_name)) u.email

unfoldable pub user_role : User → String
user_role u = or_else (some_text (some (to_lower u.role))) "user"
