-- ===== src/Layout/Laws.antt =====
-- The navigation against the table of routes.
use mathlib.Core.List.Memᴰ.{append_cases}
use kafkaesque.Auth.Guards.Laws.{can-effective}
use mathlib.Core.Path.{fun_ext}
use text.Mathlib.Text.{starts_with}
use kafkaesque.Auth.Guards.{can, page, can_access_administration, admin_route}
use kafkaesque.Api.Types.{User}
use kafkaesque.Auth.Session.{protected, Session}
use kafkaesque.Prelude.{
  Bool-cases, ap, find, none, eqb, ◌&&◌, all_at, keep, inr, mem_of_keep, All-lookup, inl, refl,
  arith, sym, ◌↔◌, all, ◌||◌, some, ◌==◌, All, if◌then◌else◌, Memᴰ, [], false, true, ◌∷◌, ◌≡◌, Bool,
  List, Option, String,
}
use kafkaesque.Layout.UserMenu.{links}
use kafkaesque.Layout.Navigation.{
  is_visible, NavItem, visible_main_nav, admin_nav, main_nav, navigation,
}
use kafkaesque.Layout.Routes.{
  guarded, moved, Page, profile, roles, users, splat, element_view, child_routes, literal, opened,
  route_view, Pattern, View, view_at,
}
use Prim.Native.String.{◌++◌ as ◌<>◌}
use Prim.Native.Char.{code}
use kafkaesque.Prelude.Texts.{to_lower, is_blank}
use kafkaesque.Api.Encode.{is_alphanumeric}
use kafkaesque.Layout.Routes.{Element, blank}

-- The path without the slashes at its end.
abbrev pub trim_slashes : String → String
trim_slashes String.[] = String.[]
trim_slashes (String.◌∷◌ c s) =
    let rest = trim_slashes s in
    if eqb (code c) b'/' && is_blank rest then rest else String.◌∷◌ c rest

abbrev pub same_path : String → String → Bool
same_path p path = trim_slashes (to_lower p) == trim_slashes (to_lower path)

-- Patterns as the router's documentation has them: a literal one takes the path that it spells, one
-- that ends in a splat that path and those below it; neither case nor slashes at the end matter.
abbrev pub documented : Pattern → String → Bool
documented (literal p) path = same_path ("/" <> p) path
documented (splat p) path =
    same_path ("/" <> p) path || starts_with (to_lower path) ("/" <> (to_lower p <> "/"))

-- A path of letters, slashes and hyphens: nothing of it is encoded.
abbrev pub is_plain : String → Bool
is_plain String.[] = true
is_plain (String.◌∷◌ c s) =
    (is_alphanumeric (code c) || eqb (code c) b'/' || eqb (code c) b'-') && is_plain s

abbrev pub is_opened : View → Bool
is_opened (opened _) = true
is_opened _ = false

main_nav-opened :
    (me : Option User) → All (λ i. is_opened (route_view documented me i.to) ≡ true) main_nav
unfolding main_nav route_view child_routes element_view to_lower
main_nav-opened me =
    (refl, (refl, (refl, (refl, (refl, (refl, (refl, (refl, (refl, (refl, (refl, tt)))))))))))

guarded_view :
    (me : Option User) (permission : String) (p : Page)
    → element_view me (guarded permission p) ≡ (if can me permission then opened p else moved "/")
unfolding element_view admin_route
guarded_view me permission p = ground arith

users_route :
    (me : Option User)
    → route_view documented me "/admin/users"
      ≡ (if can me "users.read" then opened users else moved "/")
unfolding route_view child_routes to_lower
users_route me = guarded_view me "users.read" users

roles_route :
    (me : Option User)
    → route_view documented me "/admin/roles"
      ≡ (if can me "roles.read" then opened roles else moved "/")
unfolding route_view child_routes to_lower
roles_route me = guarded_view me "roles.read" roles

admin_nav-opened :
    (me : Option User)
    → All (λ i. is_visible me i ≡ true → is_opened (route_view documented me i.to) ≡ true) admin_nav
unfolding admin_nav is_visible
admin_nav-opened me =
    (λ h. ground (arith, users_route me), (λ h. ground (arith, roles_route me), tt))

shown_admin-opened :
    (me : Option User) {i : NavItem}
    → Memᴰ i (keep (is_visible me) admin_nav)
    → is_opened (route_view documented me i.to) ≡ true
shown_admin-opened me {i} j =
    let (k, h) = mem_of_keep (is_visible me) admin_nav j in
    All-lookup (λ i. is_visible me i ≡ true → is_opened (route_view documented me i.to) ≡ true)
      admin_nav (admin_nav-opened me) k h

mem_of_guarded {ℓ} :
    {A : Type ℓ} (b : Bool) {x : A} (xs : List A) → Memᴰ x (if b then xs else []) → Memᴰ x xs
mem_of_guarded true xs k = k
mem_of_guarded false xs k = elim k [ ]

navigation-opened :
    (me : Option User) {i : NavItem}
    → Memᴰ i (navigation me)
    → is_opened (route_view documented me i.to) ≡ true
unfolding navigation visible_main_nav
navigation-opened me {i} k = elim (append_cases (visible_main_nav me) k) [
  | inl j ↦
      All-lookup (λ i. is_opened (route_view documented me i.to) ≡ true) main_nav
        (main_nav-opened me) (mem_of_keep (is_visible me) main_nav j).0
  | inr j ↦ shown_admin-opened me (mem_of_guarded (can_access_administration me) _ j)
]

abbrev leads : Option User → String × String → Bool
leads me l = is_opened (route_view documented me l.0)

opened_iff :
    (me : Option User) (a b : Bool)
    → can me "users.read" ≡ a
    → can me "roles.read" ≡ b
    → (all
          (leads me)
          (if a || b then ("/admin/users", "Users") ∷ ("/admin/roles", "Roles") ∷ [] else [])
        ≡ true)
      ↔ (a ≡ b)
opened_iff me true true p q = (λ _. refl, λ _. rw (users_route me, roles_route me, p, q) refl)
opened_iff me true false p q =
    (λ h. absurd (ground (arith, users_route me, roles_route me)), λ h. absurd (cc))
opened_iff me false true p q =
    (λ h. absurd (ground (arith, users_route me, roles_route me)), λ h. absurd (cc))
opened_iff me false false p q = (λ _. refl, λ _. refl)

profile_route : (me : Option User) → route_view documented me "/profile" ≡ opened profile
unfolding route_view child_routes element_view to_lower
profile_route me = refl

view_at-page :
    (matches : Pattern → String → Bool) (s : Session) (to : String)
    → protected s ≡ page
    → view_at matches s to ≡ route_view matches s.user to
unfolding view_at
view_at-page matches s to h = ground arith

documented_links-opened_iff :
    (me : User)
    → (all (leads (some me)) (links (some me)) ≡ true)
      ↔ (can (some me) "users.read" ≡ can (some me) "roles.read")
unfolding links can_access_administration
documented_links-opened_iff me =
    rw
      (
        sym (can-effective (some me) "users.read"),
        sym (can-effective (some me) "roles.read"),
        profile_route (some me),
      )
      (opened_iff (some me) _ _ refl refl)

navigation-plain : (me : Option User) {i : NavItem} → Memᴰ i (navigation me) → is_plain i.to ≡ true
unfolding navigation visible_main_nav main_nav admin_nav
navigation-plain me {i} k = elim (append_cases (visible_main_nav me) k) [
  | inl j ↦ all_at (λ i. is_plain i.to) main_nav refl (mem_of_keep (is_visible me) main_nav j).0
  | inr j ↦
      all_at (λ i. is_plain i.to) admin_nav refl
        (mem_of_keep (is_visible me) admin_nav
          (mem_of_guarded (can_access_administration me) _ j)).0
]

links-plain : (me : Option User) → all (λ l. is_plain l.0) (links me) ≡ true
unfolding links
links-plain none = refl
links-plain (some u) = elim (Bool-cases (can_access_administration (some u))) [
  | inl e ↦ rw e refl
  | inr e ↦ rw e refl
]

all-same {ℓ} :
    {A : Type ℓ} (f g p : A → Bool) (xs : List A)
    → ((x : A) → p x ≡ true → f x ≡ g x)
    → all p xs ≡ true
    → all f xs ≡ all g xs
all-same f g p [] h k = refl
all-same f g p (x ∷ xs) h k = rw (h x (ground arith), all-same f g p xs h (ground arith)) refl

module _ (matches : Pattern → String → Bool)
    (as_documented : (p : Pattern) (path : String)
      → is_plain path ≡ true
      → matches p path ≡ documented p path) where
  route_view-documented :
      (me : Option User) (path : String)
      → is_plain path ≡ true
      → route_view matches me path ≡ route_view documented me path
  unfolding route_view
  route_view-documented me path h =
      ap
        (λ (f : (Pattern × Element) → Bool). elim (find f child_routes) as (λ _. View) [
          | none ↦ blank
          | some r ↦ element_view me r.1
        ])
        (fun_ext (λ r. as_documented r.0 path h))

  -- For a session that is let in, each item of the sidebar leads to a page: no route is missing, and
  -- none sends the user away.
  pub view_at-navigation :
      (s : Session) {i : NavItem}
      → protected s ≡ page
      → Memᴰ i (navigation s.user)
      → is_opened (view_at matches s i.to) ≡ true
  view_at-navigation s {i} h k =
      rw
        (
          view_at-page matches s i.to h,
          route_view-documented s.user i.to (navigation-plain s.user k),
        )
        (navigation-opened s.user k)

  -- The links of the user's menu all lead to pages exactly when the user may read both users and roles,
  -- or neither: the menu shows both links to a user who may read one of the two.
  pub menu_links-opened_iff :
      (me : User)
      → (all (λ l. is_opened (route_view matches (some me) l.0)) (links (some me)) ≡ true)
        ↔ (can (some me) "users.read" ≡ can (some me) "roles.read")
  menu_links-opened_iff me =
      let same =
        all-same (λ (l : String × String). is_opened (route_view matches (some me) l.0))
          (leads (some me)) (λ l. is_plain l.0) (links (some me))
          (λ l h. ap is_opened (route_view-documented (some me) l.0 h)) (links-plain (some me)) in
      rw same (documented_links-opened_iff me)
