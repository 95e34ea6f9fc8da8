-- ===== src/Auth/Permissions/Matching.antt =====
-- What `matchPermission` accepts.
use Prim.Native.Char.{Char, code}
use Prim.Native.String.{[], ◌∷◌, ◌++◌}
use kafkaesque.Prelude.{
  sym, ◌∙◌, Bool-cases, ap, ◌||◌, Bool, true, false, ◌≡◌, refl, ◌↔◌, ◌⊎◌, inl, inr, List, String,
  Memᴰ, arith, or-cases, eqb,
}
use kafkaesque.Prelude.Texts.{before, includes, mem_of_includes, includes_of_mem}
use kafkaesque.Auth.Permissions.{wildcard, match_permission}
use text.Mathlib.TextLemmas.{nil-append, cons-append}

pub match_permission-wildcard :
    (granted : List String) (required : String)
    → (match_permission granted required ≡ true)
      ↔ (Memᴰ required granted ⊎ Memᴰ (wildcard required) granted)
unfolding match_permission
match_permission-wildcard granted required = (
  λ h. elim (or-cases (includes granted required) (includes granted (wildcard required)) h) [
    | inl e ↦ inl (mem_of_includes granted required e)
    | inr e ↦ inr (mem_of_includes granted (wildcard required) e)
  ],
  elim [
    | inl m ↦ ground (arith, includes_of_mem granted m)
    | inr m ↦ ground (arith, includes_of_mem granted m)
  ],
)

abbrev pub is_dot : Char → Bool
is_dot c = eqb (code c) b'.'

abbrev pub has_dot : String → Bool
has_dot [] = false
has_dot (c ∷ s) = is_dot c || has_dot s

-- The text `ns` has no dot, and in `s` it is followed by a dot, or by nothing.
pub data IsNamespace (ns s : String) : Type 0 where
  whole : has_dot ns ≡ false → s ≡ ns → IsNamespace ns s
  prefix :
      (d : Char) (rest : String)
      → has_dot ns ≡ false
      → is_dot d ≡ true
      → s ≡ ns ++ (d ∷ rest)
      → IsNamespace ns s

IsNamespace-cons :
    (c : Char) {ns s : String} → is_dot c ≡ false → IsNamespace ns s → IsNamespace (c ∷ ns) (c ∷ s)
IsNamespace-cons c e (whole h q) = whole (ground arith) (ap (λ t. c ∷ t) q)
IsNamespace-cons c {ns} e (prefix d rest h k q) =
    prefix d rest (ground arith) k (ap (λ t. c ∷ t) q ∙ sym (cons-append _ _ _))

before-IsNamespace : (s : String) → IsNamespace (before "." s) s
unfolding before
before-IsNamespace [] = whole refl refl
before-IsNamespace (c ∷ s) = elim (Bool-cases (is_dot c)) [
  | inl e ↦ rw e (prefix c s refl e (sym (nil-append _)))
  | inr e ↦ rw e (IsNamespace-cons c e (before-IsNamespace s))
]

before-whole : (ns : String) → has_dot ns ≡ false → before "." ns ≡ ns
unfolding before
before-whole [] h = refl
before-whole (c ∷ ns) h =
    let here : is_dot c ≡ false = ground arith in
    rw here (ap (λ t. c ∷ t) (before-whole ns (ground arith)))

before-prefix :
    (ns : String) (d : Char) (rest : String)
    → has_dot ns ≡ false
    → is_dot d ≡ true
    → before "." (ns ++ (d ∷ rest)) ≡ ns
unfolding before
before-prefix [] d rest h k = rw nil-append (rw k refl)
before-prefix (c ∷ ns) d rest h k =
    let here : is_dot c ≡ false = ground arith in
    rw cons-append (rw here (ap (λ t. c ∷ t) (before-prefix ns d rest (ground arith) k)))

before-namespace : (ns s : String) → IsNamespace ns s → before "." s ≡ ns
before-namespace ns s (whole h q) = ap (before ".") q ∙ before-whole ns h
before-namespace ns s (prefix d rest h k q) = ap (before ".") q ∙ before-prefix ns d rest h k

-- A permission is granted exactly when the list names it, or names `ns.*` for the part `ns` of it that
-- has no dot and that a dot, or nothing, follows.
pub match_permission_iff :
    (granted : List String) (required : String)
    → (match_permission granted required ≡ true) ↔ (
        Memᴰ required granted
        ⊎ ((ns : String) × IsNamespace ns required × Memᴰ (ns ++ ".*") granted))
unfolding wildcard
match_permission_iff granted required = (
  λ h. elim ((match_permission-wildcard granted required).0 h) [
    | inl m ↦ inl m
    | inr m ↦ inr (before "." required, before-IsNamespace required, m)
  ],
  elim [
    | inl m ↦ (match_permission-wildcard granted required).1 (inl m)
    | inr (ns, n, m) ↦
        (match_permission-wildcard granted required).1 (inr (rw (before-namespace ns required n) m))
  ],
)

-- Whether the last character is an asterisk.
abbrev pub ends_in_star : String → Bool
ends_in_star [] = false
ends_in_star (c ∷ []) = eqb (code c) b'*'
ends_in_star (_ ∷ (d ∷ s)) = ends_in_star (d ∷ s)

ends_in_star-append : (s : String) → ends_in_star (s ++ ".*") ≡ true
ends_in_star-append [] = refl
ends_in_star-append (c ∷ []) = rw cons-append refl
ends_in_star-append (c ∷ (d ∷ s)) =
    rw (cons-append, cons-append) (rw cons-append at (ends_in_star-append (d ∷ s)))

pub ends_in_star-wildcard : (required : String) → ends_in_star (wildcard required) ≡ true
unfolding wildcard
ends_in_star-wildcard required = ends_in_star-append (before "." required)
