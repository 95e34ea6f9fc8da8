-- ===== src/Palette.antt =====
-- `CommandPalette` (frontend/src/components/CommandPalette.tsx): recent searches, the list of entries, the
-- selected one, and what an entry does.
pub mod Recent
pub mod Entries
pub mod View
pub mod Rows
use kafkaesque.Api.Encode.{encode_uri_component}
use kafkaesque.Prelude.Texts.{to_lower, has_text, trim, is_blank}
use kafkaesque.Ui.{
  dialog, open_add_cluster, select_cluster, on_close, open_produce_message, navigate,
  open_create_topic, DialogCall, Effect,
}
use kafkaesque.Api.Types.{broker, consumer_group, topic, cluster, SearchResult, SearchType}
use kafkaesque.Prelude.{
  not, take, zero, keep, map, min, ◌||◌, get_elem?, suc, ◌++◌, ◌-◌, ◌==◌, Option, [], if◌then◌else◌,
  none, or_else, ◌∷◌, List, String, some, ℕ,
}
use Prim.Native.String.{◌++◌ as ◌<>◌}

-- `saveRecent` on the stored list.
unfoldable pub save_recent : String → List String → List String
save_recent q recent =
    if is_blank (trim q) then recent else take 5 (q ∷ keep (λ r. not (r == q)) recent)

-- What an entry does.
pub data Command : Type 0 where
  go : String → Command
  run : DialogCall → Command
  follow : SearchResult → Command

pub record PaletteItem : Type 0 where
  pub id : String
  pub label : String
  pub group : String
  pub command : Command

abbrev entry : String → String → String → Command → PaletteItem
entry id label group command = record { id = id; label = label; group = group; command = command }

unfoldable pub static_items : List PaletteItem
static_items =
    entry "nav-dash" "Go to Dashboard" "Navigation" (go "/")
    ∷ entry "nav-topics" "Go to Topics" "Navigation" (go "/topics")
    ∷ entry "nav-consumers" "Go to Consumers" "Navigation" (go "/consumers")
    ∷ entry "nav-brokers" "Go to Brokers" "Navigation" (go "/brokers")
    ∷ entry "nav-clusters" "Go to Clusters" "Navigation" (go "/clusters")
    ∷ entry "nav-audit" "Go to Audit Log" "Navigation" (go "/audit")
    ∷ entry "act-topic" "Create Topic" "Actions" (run open_create_topic)
    ∷ entry "act-produce" "Produce Message" "Actions" (run (open_produce_message none))
    ∷ entry "act-cluster" "Add Cluster" "Actions" (run open_add_cluster)
    ∷ []

abbrev type_name : SearchType → String
type_name cluster = "cluster"
type_name topic = "topic"
type_name consumer_group = "consumer_group"
type_name broker = "broker"

-- `typeLabels`
abbrev type_label : SearchType → String
type_label cluster = "Clusters"
type_label topic = "Topics"
type_label consumer_group = "Consumer Groups"
type_label broker = "Brokers"

-- A template literal prints a missing cluster as `undefined`.
unfoldable pub search_item : SearchResult → PaletteItem
search_item r =
    entry (type_name r.kind <> ("-" <> (r.id <> ("-" <> or_else r.cluster_id "undefined")))) r.label
      (type_label r.kind) (follow r)

unfoldable pub filtered_static : String → List PaletteItem
filtered_static query =
    if is_blank query
    then static_items
    else keep (λ i. has_text (to_lower i.label) (to_lower query)) static_items

-- The query as typed, the debounced query, and the server's answer.
unfoldable pub items : String → String → List SearchResult → List PaletteItem
items query debounced results =
    if is_blank debounced then filtered_static query else map search_item results

-- `(acc[item.group] ||= []).push(item)`: the groups in the order of their first entry.
unfoldable pub push_to :
    PaletteItem → List (String × List PaletteItem) → List (String × List PaletteItem)
push_to i [] = (i.group, i ∷ []) ∷ []
push_to i ((g, is) ∷ gs) =
    let rest = push_to i gs in if g == i.group then (g, is ++ i ∷ []) ∷ gs else (g, is) ∷ rest

unfoldable pub group_from :
    List (String × List PaletteItem) → List PaletteItem → List (String × List PaletteItem)
group_from acc [] = acc
group_from acc (i ∷ is) = group_from (push_to i acc) is

unfoldable pub grouped : List PaletteItem → List (String × List PaletteItem)
grouped is = group_from [] is

-- `Object.values(grouped).flat()`
unfoldable pub flat : List (String × List PaletteItem) → List PaletteItem
flat [] = []
flat ((g, is) ∷ gs) = is ++ flat gs

unfoldable pub flat_items : List PaletteItem → List PaletteItem
flat_items is = flat (grouped is)

-- `none` is the index -1; `recent` is the stored list of recent searches.
pub record Palette : Type 0 where
  pub query : String
  pub recent : List String
  pub selected : Option ℕ

-- The effect on `[open]`, when the palette opens.
unfoldable pub opened : Palette → Palette
opened p = record p { query = ""; selected = some 0 }

-- The effect on `[query, debounced]`.
unfoldable pub query_changed : Palette → Palette
query_changed p = record p { selected = some 0 }

unfoldable pub typed : String → Palette → Palette
typed text p = query_changed (record p { query = text })

-- `Math.min(s + 1, flatItems.length - 1)`
unfoldable pub arrow_down : ℕ → Palette → Palette
arrow_down zero p = record p { selected = none }
arrow_down (suc n) p = record p {
  selected = some (min (elim p.selected [ none ↦ 0 | some s ↦ suc s ]) n);
}

-- `Math.max(s - 1, 0)`
unfoldable pub arrow_up : Palette → Palette
arrow_up p = record p { selected = some (elim p.selected [ none ↦ 0 | some s ↦ s - 1 ]) }

-- The entry that Enter runs.
unfoldable pub chosen : List PaletteItem → Palette → Option PaletteItem
chosen flat p = elim p.selected [ none ↦ none | some s ↦ get_elem? flat s ]

-- `navigateToResult`, for the debounced query.
unfoldable pub target : SearchResult → String
target r = elim r.kind [
  | cluster ↦ "/clusters"
  | topic ↦ "/messages?topic=" <> encode_uri_component r.label
  | consumer_group ↦ "/consumers?group=" <> encode_uri_component r.label
  | broker ↦ "/brokers?broker=" <> encode_uri_component r.id
]

abbrev pub switch_cluster : String → Option String → List Effect
switch_cluster current none = []
switch_cluster current (some id) =
    if is_blank id || id == current then [] else select_cluster id ∷ []

unfoldable pub navigate_to_result : String → String → SearchResult → Palette → Palette × List Effect
navigate_to_result cluster_id debounced r p = (
  record p { query = ""; recent = save_recent debounced p.recent },
  switch_cluster cluster_id r.cluster_id ++ navigate (target r) ∷ on_close ∷ [],
)

-- The action of an entry.
unfoldable pub act : String → String → Command → Palette → Palette × List Effect
act cluster_id debounced (go path) p = (p, navigate path ∷ on_close ∷ [])
act cluster_id debounced (run call) p = (p, dialog call ∷ on_close ∷ [])
act cluster_id debounced (follow r) p = navigate_to_result cluster_id debounced r p

unfoldable pub enter : String → String → List PaletteItem → Palette → Palette × List Effect
enter cluster_id debounced flat p = elim (chosen flat p) [
  | none ↦ (p, [])
  | some i ↦ act cluster_id debounced i.command p
]
