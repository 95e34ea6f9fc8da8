-- ===== src/Palette/View.antt =====
-- What the command palette shows below its input (frontend/src/components/CommandPalette.tsx). What
-- `JSON.parse` makes of the stored text is the argument `parse`, `none` where it throws.
use kafkaesque.Prelude.Texts.{is_blank, some_text}
use kafkaesque.Api.Types.{SearchResult}
use kafkaesque.Palette.{Palette}
use Prim.Native.String.{◌++◌ as ◌<>◌}
use kafkaesque.Prelude.{
  is_some, is_empty, ◌++◌, ◌∷◌, [], ◌&&◌, not, if◌then◌else◌, or_else, Option, Bool, List, String,
  ℕ, none, some,
}

-- `loadRecent`
unfoldable pub load_recent : (String → Option (List String)) → Option String → List String
load_recent parse stored = or_else (parse (or_else (some_text stored) "[]")) []

unfoldable pub recent_shown : List String → Palette → List String
recent_shown recent p = if is_blank p.query then recent else []

unfoldable pub press_recent : String → Palette → Palette
press_recent r p = record p { query = r }

unfoldable pub hover : ℕ → Palette → Palette
hover i p = record p { selected = some i }

-- What the palette says of the search: that it runs, that it failed, or that it found nothing. `failure`
-- is the query's error.
unfoldable pub search_notes : Bool → Option String → String → List SearchResult → List String
search_notes loading failure debounced results =
    let asked = not (is_blank debounced) in
    (if loading && asked then "Searching…" ∷ [] else [])
    ++ elim failure [ none ↦ [] | some message ↦ message ∷ [] ]
    ++ (if not loading && asked && is_empty results && not (is_some failure)
        then ("No results for \"" <> (debounced <> "\"")) ∷ []
        else [])
