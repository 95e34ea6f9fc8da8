-- ===== src/Dialogs/RoleSets.antt =====
-- The permissions that the editor of a role selects (frontend/src/components/dialogs/RoleEditorDialog.tsx).
use mathlib.Core.Path.{fun_ext}
use kafkaesque.Prelude.Texts.{includes}
use kafkaesque.Api.Types.{PermissionRecord, PermissionGroup}
use kafkaesque.Prelude.{
  all, sym, ◌∙◌, eq_iff, ap, inr, inl, Bool-cases, refl, [], arith, map, ◌&&◌, ◌∷◌, if◌then◌else◌,
  not, ◌==◌, ◌||◌, ◌++◌, ◌≡◌, Bool, List, String,
}
use kafkaesque.Dialogs.RoleEditor.{
  all_on, press_category, set_add, set_delete, toggle, toggle_each, toggle_category, RoleEditor,
}

includes-append :
    (xs ys : List String) (t : String) → includes (xs ++ ys) t ≡ includes xs t || includes ys t
includes-append [] ys t = refl
includes-append (x ∷ xs) ys t = ground (arith, includes-append xs ys t)

pub includes-set_add :
    (y : String) (xs : List String) (t : String)
    → includes (set_add y xs) t ≡ y == t || includes xs t
unfolding set_add
includes-set_add y xs t = elim (Bool-cases (includes xs y)) [
  | inl e ↦ elim (Bool-cases (y == t)) [
    | inl q ↦ let p = ap (includes xs) ((eq_iff y t).0 q) in ground arith
    | inr q ↦ ground arith
  ]
  | inr e ↦ rw e (includes-append xs (y ∷ []) t ∙ ground arith)
]

pub includes-set_delete :
    (y : String) (xs : List String) (t : String)
    → includes (set_delete y xs) t ≡ not (y == t) && includes xs t
unfolding set_delete
includes-set_delete y [] t = ground arith
includes-set_delete y (x ∷ xs) t =
    let rest = includes-set_delete y xs t in
    elim (Bool-cases (x == y)) [
      | inl e ↦ let p = ap (λ z. z == t) ((eq_iff x y).0 e) in ground arith
      | inr e ↦ elim (Bool-cases (y == t)) [
        | inl q ↦ let p = ap (λ z. x == z) ((eq_iff y t).0 q) in ground arith
        | inr q ↦ ground arith
      ]
    ]

-- Toggling a permission changes whether it is selected, and no other permission.
toggle-selected :
    (id t : String) (s : RoleEditor)
    → includes (toggle id s).selected t
      ≡ (if id == t then not (includes s.selected t) else includes s.selected t)
unfolding toggle
toggle-selected id t s =
    let deleted = includes-set_delete id s.selected t in
    let added = includes-set_add id s.selected t in
    elim (Bool-cases (id == t)) [
      | inl e ↦ let p = ap (includes s.selected) ((eq_iff id t).0 e) in ground arith
      | inr e ↦ ground arith
    ]

toggle_each-includes :
    (on : Bool) (ids sel : List String) (t : String)
    → includes (toggle_each on ids sel) t ≡ (if includes ids t then on else includes sel t)
unfolding toggle_each
toggle_each-includes on [] sel t = refl
toggle_each-includes on (x ∷ ids) sel t = elim (Bool-cases on) [
  | inl e ↦
      let rest = toggle_each-includes on ids (set_add x sel) t in
      let added = includes-set_add x sel t in ground arith
  | inr e ↦
      let rest = toggle_each-includes on ids (set_delete x sel) t in
      let deleted = includes-set_delete x sel t in ground arith
]

-- Switching a category on selects all its permissions, off none of them; the selection of the others
-- stays.
toggle_category-selected :
    (group : PermissionGroup) (on : Bool) (t : String) (s : RoleEditor)
    → includes (toggle_category group on s).selected t
      ≡ (if includes (map (λ p. p.id) group.permissions) t then on else includes s.selected t)
unfolding toggle_category
toggle_category-selected group on t s =
    toggle_each-includes on (map (λ p. p.id) group.permissions) s.selected t

-- What the user does with the checkboxes.
pub data Choice : Type 0 where
  one : String → Choice
  category : PermissionGroup → Choice

abbrev pub choose : List Choice → RoleEditor → RoleEditor
choose [] s = s
choose (one id ∷ cs) s = choose cs (toggle id s)
choose (category g ∷ cs) s = choose cs (press_category g s)

-- A set of permissions, given by its membership test, with the same choices: one member is
-- exchanged; a category that is wholly in the set is taken out of it, and else put into it.
abbrev pub flip : String → (String → Bool) → String → Bool
flip id f t = if id == t then not (f t) else f t

abbrev pub flip_category : List String → (String → Bool) → String → Bool
flip_category ids f t = if includes ids t then not (all f ids) else f t

abbrev pub choose_abstract : List Choice → (String → Bool) → String → Bool
choose_abstract [] f = f
choose_abstract (one id ∷ cs) f = choose_abstract cs (flip id f)
choose_abstract (category g ∷ cs) f =
    choose_abstract cs (flip_category (map (λ p. p.id) g.permissions) f)

abbrev pub members : RoleEditor → String → Bool
members s t = includes s.selected t

all-map :
    (f : String → Bool) (ps : List PermissionRecord)
    → all f (map (λ p. p.id) ps) ≡ all (λ p. f p.id) ps
all-map f [] = refl
all-map f (p ∷ ps) = ap (λ b. f p.id && b) (all-map f ps)

press_category-members :
    (g : PermissionGroup) (s : RoleEditor)
    → members (press_category g s) ≡ flip_category (map (λ p. p.id) g.permissions) (members s)
unfolding press_category all_on
press_category-members g s = fun_ext (λ t.
    rw (all-map (members s) g.permissions) (toggle_category-selected g (not (all_on g s)) t s))

-- Whatever the user chooses in the editor, the permissions selected are those of the abstract set: the
-- order of the list, and how a category is switched member by member, do not show.
pub members-choose :
    (cs : List Choice) (s : RoleEditor) → members (choose cs s) ≡ choose_abstract cs (members s)
members-choose [] s = refl
members-choose (one id ∷ cs) s =
    rw (sym (fun_ext (λ t. toggle-selected id t s))) (members-choose cs (toggle id s))
members-choose (category g ∷ cs) s =
    rw (sym (press_category-members g s)) (members-choose cs (press_category g s))
