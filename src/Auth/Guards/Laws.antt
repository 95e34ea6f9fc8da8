-- ===== src/Auth/Guards/Laws.antt =====
-- What a guard of the user interface lets through.
use kafkaesque.Prelude.{
  inr, inl, Bool-cases, false, Bool, true, ◌≡◌, refl, ◌↔◌, ◌⊎◌, Option, none, some, List, [], ◌∷◌,
  String, Memᴰ, arith, All, and-cases, all, mem_of_any, any_of_mem,
}
use kafkaesque.Api.Types.{User}
use kafkaesque.Auth.Permissions.{match_permission, has_permission}
use kafkaesque.Auth.Guards.{
  fallback, given, effective, can, can_any, can_all, can_access_administration, Mode, any_of,
  all_of, children, guard_allows, permission_guard, page, admin_route,
}

-- `can` answers from the list of permissions that the hook shows, on both of its branches.
pub can-effective :
    (user : Option User) (p : String) → can user p ≡ match_permission (effective user) p
unfolding can effective has_permission
can-effective user p = ground arith

-- What a guard asks for.
abbrev pub Allows : Option User → String → Option (List String) → Mode → Type 0
Allows user p none mode = can user p ≡ true
Allows user p (some required) any_of = (q : String) × Memᴰ q required × (can user q ≡ true)
Allows user p (some required) all_of = All (λ q. can user q ≡ true) required

all_iff {ℓ} :
    {A : Type ℓ} (f : A → Bool) (xs : List A) → (all f xs ≡ true) ↔ All (λ x. f x ≡ true) xs
all_iff f [] = (λ _. tt, λ _. refl)
all_iff f (x ∷ xs) = (
  λ h. let (p, q) = and-cases (f x) (all f xs) h in (p, (all_iff f xs).0 q),
  λ (p, q). ground (arith, (all_iff f xs).1 q),
)

guard_allows_iff :
    (user : Option User) (p : String) (required : Option (List String)) (mode : Mode)
    → (guard_allows user p required mode ≡ true) ↔ Allows user p required mode
unfolding guard_allows can_any can_all
guard_allows_iff user p none any_of = (λ h. h, λ h. h)
guard_allows_iff user p none all_of = (λ h. h, λ h. h)
guard_allows_iff user p (some required) any_of =
    (mem_of_any (can user) required, λ (q, m, h). any_of_mem (can user) required m h)
guard_allows_iff user p (some required) all_of = all_iff (can user) required

-- A guard shows its children exactly when its one permission is held or, where it has a list,
-- some or all of the list, by its mode.
permission_guard_iff :
    (user : Option User) (p : String) (required : Option (List String)) (mode : Mode)
    → (permission_guard user p required mode ≡ children) ↔ Allows user p required mode
unfolding permission_guard
permission_guard_iff user p required mode = (
  λ h. (guard_allows_iff user p required mode).0 (ground arith),
  λ a. rw ((guard_allows_iff user p required mode).1 a),
)

-- Permissions that the server sent replace those of the role.
can-given :
    (u : User) (p q : String) (ps : List String) (role : String)
    → u.permissions ≡ some (q ∷ ps)
    → (can (some u) p ≡ match_permission (q ∷ ps) p)
      × (can (some (record u { role = role })) p ≡ can (some u) p)
unfolding can effective given
can-given u p q ps role e = (ground arith, ground arith)

-- Who reaches one of the two administration pages may open the administration section.
pub admin_route-administration :
    (user : Option User)
    → (admin_route user "users.read" ≡ page) ⊎ (admin_route user "roles.read" ≡ page)
    → can_access_administration user ≡ true
unfolding admin_route can_access_administration
admin_route-administration user h =
    ground (arith, can-effective user "users.read", can-effective user "roles.read")

-- A guard shows its children to a user with the permission, and nothing of them to others.
pub guard-cases :
    (me : Option User) (p : String)
    → ((can me p ≡ true) × (permission_guard me p none any_of ≡ children))
      ⊎ ((can me p ≡ false) × (permission_guard me p none any_of ≡ fallback))
unfolding permission_guard guard_allows
guard-cases me p = elim (Bool-cases (can me p)) [
  | inl e ↦ inl (e, rw e refl)
  | inr e ↦ inr (e, rw e refl)
]
