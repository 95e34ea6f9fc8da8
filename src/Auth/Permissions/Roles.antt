-- ===== src/Auth/Permissions/Roles.antt =====
-- What the built-in roles may do.
use Prim.Native.String.{◌++◌ as ◌<>◌}
use kafkaesque.Prelude.{
  ap, sym, ◌∙◌, ◌==◌, eq_iff, Bool-cases, [], none, true, ◌≡◌, refl, ◌↔◌, inl, inr, Option, some,
  String, Memᴰ, arith, All, All-lookup, all, all_at, Option-cases, not,
}
use kafkaesque.Prelude.Texts.{to_upper}
use kafkaesque.Auth.Guards.{can, given}
use kafkaesque.Api.Types.{User}
use kafkaesque.Auth.Permissions.{
  role_named, role_named, match_permission, Role, admin, operator, developer, viewer,
  normalize_role, granted_to, permissions_for_role, wildcard, has_permission,
}
use kafkaesque.Auth.Permissions.Matching.{
  match_permission-wildcard, ends_in_star, ends_in_star-wildcard,
}

granted_to-plain : (r : Role) → all (λ p. not (ends_in_star p)) (granted_to r) ≡ true
unfolding granted_to
granted_to-plain admin = refl
granted_to-plain operator = refl
granted_to-plain developer = refl
granted_to-plain viewer = refl

not-mem-wildcard : (r : Role) (p : String) → Memᴰ (wildcard p) (granted_to r) → ⊥
not-mem-wildcard r p m =
    let plain = all_at (λ q. not (ends_in_star q)) (granted_to r) (granted_to-plain r) m in
    ground (arith, plain, ends_in_star-wildcard p)

permissions_for_role-nil :
    (role : Option String) → normalize_role role ≡ none → permissions_for_role role ≡ []
unfolding permissions_for_role
permissions_for_role-nil role e = ground arith

unknown-has_permission :
    (role : Option String) (p : String)
    → normalize_role role ≡ none
    → has_permission role p ≡ true
    → ⊥
unfolding has_permission
unknown-has_permission role p e h =
    elim ((match_permission-wildcard [] p).0 (rw (permissions_for_role-nil role e) at h)) [
      | inl m ↦ elim m [ ]
      | inr m ↦ elim m [ ]
    ]

has_permission-role :
    (role : Option String) (p : String) {r : Role}
    → normalize_role role ≡ some r
    → has_permission role p ≡ true
    → match_permission (granted_to r) p ≡ true
unfolding has_permission permissions_for_role
has_permission-role role p e h = ground arith

has_permission_iff :
    (role : Option String) (p : String)
    → (has_permission role p ≡ true)
      ↔ ((r : Role) × (normalize_role role ≡ some r) × Memᴰ p (granted_to r))
unfolding has_permission permissions_for_role
has_permission_iff role p = (
  λ h. elim (Option-cases (normalize_role role)) [
    | inl e ↦ absurd (unknown-has_permission role p e h)
    | inr (r, e) ↦ (
      r,
      e,
      elim ((match_permission-wildcard (granted_to r) p).0 (has_permission-role role p e h)) [
        | inl m ↦ m
        | inr w ↦ absurd (not-mem-wildcard r p w)
      ],
    )
  ],
  λ (r, e, m).
      rw (e, permissions_for_role) ((match_permission-wildcard (granted_to r) p).1 (inl m)),
)

-- The name of a built-in role.
abbrev pub role_name : Role → String
role_name admin = "ADMIN"
role_name operator = "OPERATOR"
role_name developer = "DEVELOPER"
role_name viewer = "VIEWER"

role_named-role_name : (r : Role) → role_named (role_name r) ≡ some r
unfolding role_named
role_named-role_name admin = refl
role_named-role_name operator = refl
role_named-role_name developer = refl
role_named-role_name viewer = refl

same_name :
    {s : String} {q r : Role}
    → role_named s ≡ some r
    → role_named s ≡ some q
    → s ≡ role_name q
    → s ≡ role_name r
same_name {s} {q} {r} h k e = let same : q ≡ r = cc in e ∙ ap role_name same

name_of-role_named : (s : String) (r : Role) → role_named s ≡ some r → s ≡ role_name r
unfolding role_named
name_of-role_named s r h = elim (Bool-cases (s == "ADMIN")) [
  | inl e ↦ same_name {q = admin} h (rw e refl) ((eq_iff s "ADMIN").0 e)
  | inr e ↦ elim (Bool-cases (s == "OPERATOR")) [
    | inl f ↦ same_name {q = operator} h (rw (e, f) refl) ((eq_iff s "OPERATOR").0 f)
    | inr f ↦ elim (Bool-cases (s == "DEVELOPER")) [
      | inl g ↦ same_name {q = developer} h (rw (e, f, g) refl) ((eq_iff s "DEVELOPER").0 g)
      | inr g ↦ elim (Bool-cases (s == "VIEWER")) [
        | inl k ↦ same_name {q = viewer} h (rw (e, f, g, k) refl) ((eq_iff s "VIEWER").0 k)
        | inr k ↦ absurd (ground (arith, e, f, g, k))
      ]
    ]
  ]
]

-- A user without permissions of his own may do exactly what the table of the built-in role names whose
-- name is the upper case of his role's; so with another role he may do nothing.
pub can-builtin_iff :
    (u : User) (p : String)
    → given (some u) ≡ none
    → (can (some u) p ≡ true)
      ↔ ((r : Role) × (to_upper u.role ≡ role_name r) × Memᴰ p (granted_to r))
unfolding can normalize_role
can-builtin_iff u p own =
    let same : can (some u) p ≡ has_permission (some u.role) p = rw (can, own) refl in
    (
      λ h.
          let (r, e, m) = (has_permission_iff (some u.role) p).0 (sym same ∙ h) in
          (r, name_of-role_named (to_upper u.role) r e, m),
      λ (r, e, m).
          same
          ∙ (has_permission_iff (some u.role) p).1 (r, ap role_named e ∙ role_named-role_name r, m),
    )

-- The permission ends in ".read".
abbrev pub IsRead : String → Type 0
IsRead p = (ns : String) × (p ≡ ns <> ".read")

viewer-IsRead' : All IsRead (granted_to viewer)
unfolding granted_to
viewer-IsRead' = (
  ("cluster", refl),
  (
    ("topic", refl),
    (
      ("message", refl),
      (("consumer", refl), (("schema", refl), (("connect", refl), (("acl", refl), tt)))),
    ),
  ),
)

-- A viewer without permissions of his own may only read.
viewer-IsRead :
    (role : Option String) (p : String)
    → normalize_role role ≡ some viewer
    → has_permission role p ≡ true
    → IsRead p
viewer-IsRead role p e h =
    let (q, eq, m) = (has_permission_iff role p).0 h in
    let q-viewer : q ≡ viewer = cc in
    All-lookup IsRead (granted_to viewer) viewer-IsRead' (rw (← q-viewer) m)
