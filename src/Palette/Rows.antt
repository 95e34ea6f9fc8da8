-- ===== src/Palette/Rows.antt =====
-- The rows of the command palette, group by group (frontend/src/components/CommandPalette.tsx).
pub mod Laws
use kafkaesque.Palette.{PaletteItem, Palette, grouped, act}
use kafkaesque.Ui.{Effect}
use kafkaesque.Prelude.{
  eqb, length, ◌++◌, [], ◌∷◌, ◌+◌, suc, zero, false, Bool, List, Option, String, ℕ, none, some,
}

-- A button of the list: its entry, `idx`, and whether it is highlighted.
pub record Row : Type 0 where
  pub entry : PaletteItem
  pub index : ℕ
  pub lit : Bool

unfoldable pub is_at : ℕ → Option ℕ → Bool
is_at n none = false
is_at n (some k) = eqb k n

-- The entries are objects of their own, so `flatItems.indexOf(item)` is the place of the entry among
-- all groups.
unfoldable pub rows_from : ℕ → Option ℕ → List PaletteItem → List Row
rows_from n s [] = []
rows_from n s (i ∷ is) = record { entry = i; index = n; lit = is_at n s } ∷ rows_from (suc n) s is

unfoldable pub group_rows :
    ℕ → Option ℕ → List (String × List PaletteItem) → List (String × List Row)
group_rows n s [] = []
group_rows n s ((g, is) ∷ gs) = (g, rows_from n s is) ∷ group_rows (n + length is) s gs

-- The groups in their order, each with its title.
unfoldable pub rows_shown : List PaletteItem → Palette → List (String × List Row)
rows_shown is p = group_rows 0 p.selected (grouped is)

unfoldable pub press_row : String → String → Row → Palette → Palette × List Effect
press_row cluster_id debounced r p = act cluster_id debounced r.entry.command p
