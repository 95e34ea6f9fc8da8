-- ===== src/Ui/Table.antt =====
-- The shared components of frontend/src/components: `DataTable`, `StatusBadge`, `RowActionsMenu`,
-- `ConfirmDialog`, `Button` and `RequireCluster`. Markup and styles are left out: a component is
-- what it shows and which of its controls do something.
use kafkaesque.Api.Types.{Cluster}
use kafkaesque.Prelude.Texts.{is_blank, to_upper}
use kafkaesque.Context.Clusters.{loaded, exposed_id, cluster_ready, has_clusters, Selection, Query}
use kafkaesque.Prelude.{
  keep, [], ◌==◌, ◌||◌, false, if◌then◌else◌, not, some, ◌∷◌, Bool, List, Option, String, none, ℕ,
}

-- The body of a `DataTable`.
pub data Body {ℓ} (A : Type ℓ) : Type ℓ where
  failed : String → Body A
  skeleton : ℕ → Body A
  empty : String → Option String → Body A
  rows : List A → Body A

module _ {ℓ} {A : Type ℓ} where
  -- `filter && filterFn ? data.filter(…) : data`
  unfoldable pub filtered : Option String → Option (A → String → Bool) → List A → List A
  filtered none f xs = xs
  filtered (some text) none xs = xs
  filtered (some text) (some f) xs = if is_blank text then xs else keep (λ x. f x text) xs

  rows_or_empty : String → Option String → List A → Body A
  rows_or_empty title description [] = empty title description
  rows_or_empty title description (x ∷ xs) = rows (x ∷ xs)

  -- The error comes first, an empty text being none; a loading table has five rows of blocks.
  unfoldable pub table_body :
      Bool
      → Option String
      → String
      → Option String
      → Option String
      → Option (A → String → Bool)
      → List A
      → Body A
  unfolding rows_or_empty
  table_body loading error title description filter f xs =
      let body =
        if loading then skeleton 5 else rows_or_empty title description (filtered filter f xs) in
      elim error [ none ↦ body | some e ↦ if is_blank e then body else failed e ]

  -- Whether a row is marked as the selected one.
  unfoldable pub marked : (A → String) → Option String → A → Bool
  marked key none x = false
  marked key (some k) x = k == key x

pub data Tone : Type 0 where
  good bad busy plain : Tone

-- The colours of `StatusBadge`.
unfoldable pub status_tone : String → Tone
status_tone status =
    let s = to_upper status in
    if s == "CONNECTED" || s == "HEALTHY" || s == "STABLE" || s == "ONLINE" || s == "RUNNING"
    then good
    else if s == "UNREACHABLE" || s == "DEGRADED" || s == "DEAD" || s == "FAILED"
    then bad
    else if s == "RUNNING"
    then busy
    else plain

-- `click` is what the handler of the action does.
pub record RowAction {ℓ} (A : Type ℓ) : Type ℓ where
  pub label : String
  pub click : A
  pub destructive : Bool
  pub disabled : Bool
  pub disabled_reason : Option String

abbrev pub action {ℓ} : {A : Type ℓ} → String → A → RowAction A
action label click = record {
  label = label;
  click = click;
  destructive = false;
  disabled = false;
  disabled_reason = none;
}

-- An open menu, by the right and the bottom end of its button: it is drawn 192 px to the left of the
-- one and 4 px below the other.
abbrev pub Menu : Type 0
Menu = Option (ℕ × ℕ)

unfoldable pub open_menu : ℕ → ℕ → Menu → Menu
open_menu right bottom menu = some (right, bottom)

-- A click or a scroll anywhere closes an open menu.
unfoldable pub outside : Menu → Menu
outside menu = none

-- A click on an entry of the menu: it closes the menu and runs the action, unless it is disabled.
unfoldable pub press {ℓ} : {A : Type ℓ} → RowAction A → Menu → Menu × Option A
press a menu = if a.disabled then (menu, none) else (none, some a.click)

-- `Button`: a click does something unless it is disabled or loading.
unfoldable pub clickable : Bool → Bool → Bool
clickable disabled loading = not (disabled || loading)

-- `ConfirmDialog`: which of its two buttons can be clicked.
pub record Confirm : Type 0 where
  pub can_cancel : Bool
  pub can_confirm : Bool
  pub question : Option String

unfoldable pub confirm_dialog : Bool → Option String → Bool → Option Confirm
confirm_dialog shown resource loading =
    if not shown
    then none
    else some (record {
      can_cancel = clickable loading false;
      can_confirm = clickable false loading;
      question = resource;
    })

-- `RequireCluster`: the page, or what stands in its place.
pub data Required : Type 0 where
  page : Required
  waiting : Required
  add_first : Required
  choose : List (String × String) → Required
  nothing : Required

abbrev choices : List Cluster → List (String × String)
choices [] = []
choices (c ∷ cs) = (c.id, c.name) ∷ choices cs

unfoldable pub empty_state : Query → Selection → Required
empty_state q s =
    if q.is_loading
    then waiting
    else if not (has_clusters q)
    then add_first
    else if is_blank (exposed_id q s)
    then choose (choices (loaded q))
    else nothing

unfoldable pub require_cluster : Query → Selection → Required
unfolding empty_state
require_cluster q s = if not (cluster_ready q s) then empty_state q s else page
