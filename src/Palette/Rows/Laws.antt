-- ===== src/Palette/Rows/Laws.antt =====
-- The mouse and the keyboard agree on the entries of the command palette.
use mathlib.Core.List.{Perm}
use kafkaesque.Palette.{PaletteItem, Palette, flat, flat_items, grouped, chosen, enter}
use kafkaesque.Palette.Entries.{flat_items-perm}
use kafkaesque.Palette.View.{hover}
use kafkaesque.Palette.Rows.{Row, is_at, rows_from, group_rows, rows_shown, press_row}
use kafkaesque.Prelude.{
  arith, All, keep, map, get_elem?, length, ap, refl, sym, eqb, ◌∙◌, ◌++◌, [], ◌∷◌, ◌+◌, suc, zero,
  false, true, List, Option, String, ℕ, none, some, ◌≡◌, ◌<◌,
}

-- The rows of all groups.
abbrev pub all_rows : List (String × List Row) → List Row
all_rows [] = []
all_rows ((g, rs) ∷ gs) = rs ++ all_rows gs

-- What an entry that may be missing makes of a list.
abbrev pub at_most_one : {A : Type 0} → Option A → List A
at_most_one none = []
at_most_one (some x) = x ∷ []

rows_from-append :
    (n : ℕ) (s : Option ℕ) (is js : List PaletteItem)
    → rows_from n s (is ++ js) ≡ rows_from n s is ++ rows_from (n + length is) s js
unfolding rows_from
rows_from-append n s [] js = ap (λ k. rows_from k s js) (omega arith)
rows_from-append n s (i ∷ is) js =
    ap (λ rs. record { entry = i; index = n; lit = is_at n s } ∷ rs)
      (rows_from-append (suc n) s is js
        ∙ ap (λ k. rows_from (suc n) s is ++ rows_from k s js) (omega arith))

all_rows-group_rows :
    (n : ℕ) (s : Option ℕ) (gs : List (String × List PaletteItem))
    → all_rows (group_rows n s gs) ≡ rows_from n s (flat gs)
unfolding group_rows flat rows_from
all_rows-group_rows n s [] = refl
all_rows-group_rows n s ((g, is) ∷ gs) =
    ap (λ rs. rows_from n s is ++ rs) (all_rows-group_rows (n + length is) s gs)
    ∙ sym (rows_from-append n s is (flat gs))

entries-rows_from :
    (n : ℕ) (s : Option ℕ) (is : List PaletteItem) → map (λ r. r.entry) (rows_from n s is) ≡ is
unfolding rows_from
entries-rows_from n s [] = refl
entries-rows_from n s (i ∷ is) = ap (λ js. i ∷ js) (entries-rows_from (suc n) s is)

unlit :
    (n : ℕ) (s : Option ℕ) (is : List PaletteItem)
    → ((m : ℕ) → n < suc m → is_at m s ≡ false)
    → keep (λ r. r.lit) (rows_from n s is) ≡ []
unfolding rows_from
unlit n s [] h = refl
unlit n s (i ∷ is) h = rw (h n (omega arith)) (unlit (suc n) s is (λ m k. h m (omega arith)))

lit_at :
    (n j : ℕ) (is : List PaletteItem)
    → map (λ r. r.entry) (keep (λ r. r.lit) (rows_from n (some (n + j)) is))
      ≡ at_most_one (get_elem? is j)
unfolding rows_from is_at
lit_at n j [] = refl
lit_at n zero (i ∷ is) =
    let here : eqb (n + 0) n ≡ true = ground arith in
    let rest = unlit (suc n) (some (n + 0)) is (λ m k. ground arith) in rw (here, rest) refl
lit_at n (suc j) (i ∷ is) =
    let next : eqb (n + suc j) n ≡ false = ground arith in
    let same : n + suc j ≡ suc n + j = omega arith in
    rw next (
      ap (λ k. map (λ r. r.entry) (keep (λ r. r.lit) (rows_from (suc n) (some k) is))) same
      ∙ lit_at (suc n) j is)

lit_entries :
    (s : Option ℕ) (is : List PaletteItem)
    → map (λ r. r.entry) (keep (λ r. r.lit) (rows_from 0 s is))
      ≡ at_most_one (elim s [ none ↦ none | some k ↦ get_elem? is k ])
unfolding is_at
lit_entries none is = rw (unlit 0 none is (λ m k. refl)) refl
lit_entries (some k) is =
    let from_zero : k ≡ 0 + k = omega arith in
    ap (λ j. map (λ r. r.entry) (keep (λ r. r.lit) (rows_from 0 (some j) is))) from_zero
    ∙ lit_at 0 k is

-- Where `f` reads the list from a place on, it reads each row's entry at the row's index.
index-entry :
    (f : ℕ → Option PaletteItem) (n : ℕ) (s : Option ℕ) (is : List PaletteItem)
    → ((j : ℕ) → f (n + j) ≡ get_elem? is j)
    → All (λ r. f r.index ≡ some r.entry) (rows_from n s is)
unfolding rows_from
index-entry f n s [] h = tt
index-entry f n s (i ∷ is) h =
    (ap f (omega arith) ∙ h 0, index-entry f (suc n) s is (λ j. ap f (omega arith) ∙ h (suc j)))

-- The entry at the row's index is what Enter runs once the row is pointed at.
enter-hover :
    (cluster_id debounced : String) (is : List PaletteItem) (p : Palette) (r : Row)
    → get_elem? is r.index ≡ some r.entry
    → enter cluster_id debounced is (hover r.index p)
      ≡ press_row cluster_id debounced r (hover r.index p)
unfolding enter chosen hover press_row
enter-hover cluster_id debounced is p r h = rw (enter, h) refl

All-map : {P Q : Row → Type 0} → ((r : Row) → P r → Q r) → (rs : List Row) → All P rs → All Q rs
All-map f [] h = tt
All-map f (r ∷ rs) (p, h) = (f r p, All-map f rs h)

-- The rows of the palette show each entry once. Those that are highlighted are the entry that Enter
-- runs, if there is one, and no other. To point at a row and press Enter does what a click on it does.
pub rows_shown-enter :
    (cluster_id debounced : String) (is : List PaletteItem) (p : Palette)
    → let rows = all_rows (rows_shown is p) in
      Perm (map (λ r. r.entry) rows) is
      × (map (λ r. r.entry) (keep (λ r. r.lit) rows) ≡ at_most_one (chosen (flat_items is) p))
      × All
          (λ r.
            enter cluster_id debounced (flat_items is) (hover r.index p)
            ≡ press_row cluster_id debounced r (hover r.index p))
          rows
unfolding rows_shown chosen flat_items
rows_shown-enter cluster_id debounced is p =
    let at_place =
      index-entry (get_elem? (flat_items is)) 0 p.selected (flat_items is)
        (λ j. ap (get_elem? (flat_items is)) (omega arith)) in
    rw
      (
        all_rows-group_rows 0 p.selected (grouped is),
        entries-rows_from 0 p.selected (flat_items is),
      )
      (
        flat_items-perm is,
        lit_entries p.selected (flat_items is),
        All-map (enter-hover cluster_id debounced (flat_items is) p) _ at_place,
      )
