-- ===== src/Layout/Reload.antt =====
-- What a reload keeps of the layout.
use kafkaesque.Ui.{remove_item, set_item, stay, Effect, ◌>>◌}
use kafkaesque.Layout.{
  is_item, key_down, press_search, close_menu, open_menu, toggle_theme, path_changed, sidebar_key,
  toggle_collapsed, keep_collapsed, press_brand, theme_key, keep_theme, start, LayoutState, mounted,
}
use kafkaesque.Prelude.{
  inr, inl, ◌&&◌, ◌||◌, Bool-cases, none, some, ◌==◌, if◌then◌else◌, refl, [], false, ◌++◌, ◌∷◌,
  ◌≡◌, Bool, List, Option, String,
}

-- What the user does with the layout.
pub data Press : Type 0 where
  press_logo press_collapse press_theme press_open press_close press_palette move : Press
  press_key : Bool → Bool → String → Press

abbrev pub press : Press → LayoutState → LayoutState × List Effect
press press_logo = press_brand
press press_collapse = toggle_collapsed
press press_theme = toggle_theme
press press_open = open_menu
press press_close = close_menu
press press_palette = press_search
press move = path_changed
press (press_key meta ctrl k) = key_down meta ctrl k

abbrev pub press_all : List Press → LayoutState → LayoutState × List Effect
press_all [] = stay
press_all (p ∷ ps) = press p >> press_all ps

-- The item `k` of localStorage after some effects.
abbrev item_after : String → Option String → Effect → Option String
item_after k old (set_item name value) = if name == k then some value else old
item_after k old (remove_item name) = if name == k then none else old
item_after k old _ = old

abbrev pub stored : String → Option String → List Effect → Option String
stored k old [] = old
stored k old (e ∷ es) = stored k (item_after k old e) es

stored-append :
    (k : String) (old : Option String) (es fs : List Effect)
    → stored k old (es ++ fs) ≡ stored k (stored k old es) fs
stored-append k old [] fs = refl
stored-append k old (e ∷ es) fs = stored-append k (item_after k old e) es fs

-- The two items say what the state is.
abbrev Agrees : Option String → Option String → LayoutState → Type 0
Agrees theme sidebar s =
    (theme ≡ some (if s.dark then "dark" else "light"))
    × (sidebar ≡ some (if s.collapsed then "true" else "false"))

start-Agrees :
    (theme sidebar : Option String) (s : LayoutState)
    → Agrees theme sidebar s
    → start theme sidebar ≡ record s { mobile_open = false }
unfolding start
start-Agrees theme sidebar s (p, q) =
    let dark_same : is_item "dark" (some (if s.dark then "dark" else "light")) ≡ s.dark =
      elim (Bool-cases s.dark) [ inl e ↦ rw e refl | inr e ↦ rw e refl ] in
    let collapsed_same : is_item "true" (some (if s.collapsed then "true" else "false"))
        ≡ s.collapsed =
      elim (Bool-cases s.collapsed) [ inl e ↦ rw e refl | inr e ↦ rw e refl ] in
    rw (p, q, dark_same, collapsed_same) refl

abbrev Keeps : (LayoutState → LayoutState × List Effect) → Type 0
Keeps f =
    (theme sidebar : Option String) (s : LayoutState)
    → Agrees theme sidebar s
    → let (t, es) = f s in Agrees (stored theme_key theme es) (stored sidebar_key sidebar es) t

press-Keeps : (p : Press) → Keeps (press p)
unfolding press_brand toggle_collapsed toggle_theme open_menu close_menu press_search path_changed
    key_down keep_theme keep_collapsed
press-Keeps press_logo theme sidebar s h = h
press-Keeps press_collapse theme sidebar s h = (h.0, refl)
press-Keeps press_theme theme sidebar s h = (refl, h.1)
press-Keeps press_open theme sidebar s h = h
press-Keeps press_close theme sidebar s h = h
press-Keeps press_palette theme sidebar s h = h
press-Keeps move theme sidebar s h = h
press-Keeps (press_key meta ctrl k) theme sidebar s h =
    elim (Bool-cases ((meta || ctrl) && k == "k")) [ inl e ↦ rw e h | inr e ↦ rw e h ]

press_all-Keeps : (ps : List Press) → Keeps (press_all ps)
press_all-Keeps [] theme sidebar s h = h
press_all-Keeps (p ∷ ps) theme sidebar s h =
    rw
      (stored-append theme_key theme (press p s).1, stored-append sidebar_key sidebar (press p s).1)
      (press_all-Keeps ps _ _ (press p s).0 (press-Keeps p theme sidebar s h))

mounted-Agrees :
    (theme sidebar : Option String) (s : LayoutState)
    → let (t, es) = mounted s in
      Agrees (stored theme_key theme es) (stored sidebar_key sidebar es) t
unfolding mounted keep_theme keep_collapsed path_changed
mounted-Agrees theme sidebar s = (refl, refl)

-- Whatever was stored and whatever the user does, the page that is loaded next has the same theme and
-- the same width of the sidebar: the items of localStorage say what the state is.
pub start-press_all :
    (old_theme old_sidebar : Option String) (ps : List Press)
    → let (s, es) = (mounted >> press_all ps) (start old_theme old_sidebar) in
      start (stored theme_key old_theme es) (stored sidebar_key old_sidebar es)
      ≡ record s { mobile_open = false }
start-press_all old_theme old_sidebar ps =
    let first = start old_theme old_sidebar in
    rw
      (
        stored-append theme_key old_theme (mounted first).1,
        stored-append sidebar_key old_sidebar (mounted first).1,
      )
      (start-Agrees _ _ (press_all ps (mounted first).0).0
        (press_all-Keeps ps _ _ (mounted first).0 (mounted-Agrees old_theme old_sidebar first)))
