-- ===== src/Palette/Entries.antt =====
-- The list of entries and the selection in it.
use mathlib.Core.List.{perm_middle, append_assoc, append-nil, Perm}
use kafkaesque.Prelude.{
  zero, arith, ◌-◌, get_elem?, none, suc, Option, ◌<◌, inr, refl, inl, some, ◌==◌, ◌≡◌, Bool-cases,
  length, [], ◌++◌, ◌∷◌, String, List, ℕ,
}
use kafkaesque.Palette.{
  arrow_up, enter, PaletteItem, Palette, chosen, flat, grouped, arrow_down, flat_items, group_from,
  push_to,
}
use mathlib.Core.List.Perm

push_to-perm :
    (i : PaletteItem) (gs : List (String × List PaletteItem))
    → Perm (flat (push_to i gs)) (i ∷ flat gs)
unfolding push_to flat
push_to-perm i [] = Perm.refl (i ∷ [])
push_to-perm i ((g, is) ∷ gs) = elim (Bool-cases (g == i.group)) [
  | inl e ↦ rw (e, append_assoc) (perm_middle is (flat gs))
  | inr e ↦ rw e (Perm.trans (Perm.append_left is (push_to-perm i gs)) (perm_middle is (flat gs)))
]

group_from-perm :
    (acc : List (String × List PaletteItem)) (is : List PaletteItem)
    → Perm (flat (group_from acc is)) (flat acc ++ is)
unfolding group_from
group_from-perm acc [] = rw append-nil (Perm.refl (flat acc))
group_from-perm acc (i ∷ is) =
    Perm.trans (group_from-perm (push_to i acc) is) (
      Perm.trans (Perm.append_right is (push_to-perm i acc))
        (Perm.symm (perm_middle (flat acc) is)))

-- Grouping shows each entry once: it only changes their order.
pub flat_items-perm : (is : List PaletteItem) → Perm (flat_items is) is
unfolding flat_items grouped flat
flat_items-perm is = group_from-perm [] is

get_elem?-lt :
    (xs : List PaletteItem) (n : ℕ) → n < length xs → (i : PaletteItem) × (get_elem? xs n ≡ some i)
get_elem?-lt [] n h = absurd (omega arith)
get_elem?-lt (x ∷ xs) zero h = (x, refl)
get_elem?-lt (x ∷ xs) (suc n) h = get_elem?-lt xs n (omega arith)

-- The selection is an entry of the list, or the index -1.
abbrev pub InRange : ℕ → Option ℕ → Type 0
InRange n none = Unit
InRange n (some s) = s < n

-- With entries to select from, an arrow key selects one of them, whatever was selected before the
-- down key, and within the list or -1 before the up key.
arrows-chosen :
    (x : PaletteItem) (xs : List PaletteItem) (p : Palette)
    → InRange (length (x ∷ xs)) p.selected
    → ((i : PaletteItem) × (chosen (x ∷ xs) (arrow_down (length (x ∷ xs)) p) ≡ some i))
      × ((i : PaletteItem) × (chosen (x ∷ xs) (arrow_up p) ≡ some i))
unfolding arrow_down arrow_up chosen
arrows-chosen x xs p h =
    (get_elem?-lt (x ∷ xs) _ (omega arith), get_elem?-lt (x ∷ xs) _ (up p.selected h))
  where
    up :
        (s : Option ℕ)
        → InRange (suc (length xs)) s
        → (elim s [ none ↦ 0 | some k ↦ k - 1 ]) < suc (length xs)
    up none k = omega arith
    up (some s) k = omega arith

-- The down key in an empty list leaves nothing selected: whatever entries come in later, Enter does
-- nothing and keeps the palette open, until another key changes the selection or the query.
pub arrow_down-empty :
    (cluster_id debounced : String) (later : List PaletteItem) (p : Palette)
    → enter cluster_id debounced later (arrow_down (length (flat_items [])) p)
      ≡ (arrow_down 0 p, [])
unfolding enter chosen arrow_down flat_items grouped group_from flat
arrow_down-empty cluster_id debounced later p = refl
