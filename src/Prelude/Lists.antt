-- ===== src/Prelude/Lists.antt =====
-- Lists measured by native numbers, the array methods of the source, and predicates on lists.
use Prim.Native.Nat.{ℕ, zero, suc, ◌+◌, ◌-◌, ◌≤◌, min}
use mathlib.Core.Path.{subst, sym, ap, ◌∙◌, ◌≡◌, refl}
use mathlib.Core.Logic.{inl, inr}
use mathlib.Core.Bool.{Bool, true, false, ◌&&◌, ◌||◌}
use mathlib.Core.Option.{Option, none, some}
use mathlib.Core.List.{List, [], ◌∷◌, ◌++◌, Memᴰ}
use native.Mathlib.Omega.{arith}
use kafkaesque.Prelude.Tests.{if◌then◌else◌, Bool-cases}

module _ {ℓ} {A : Type ℓ} where
  abbrev pub length : List A → ℕ
  length [] = 0
  length (x ∷ xs) = suc (length xs)

  abbrev pub get_elem? : List A → ℕ → Option A
  get_elem? [] i = none
  get_elem? (x ∷ xs) zero = some x
  get_elem? (x ∷ xs) (suc i) = get_elem? xs i

  abbrev pub take : ℕ → List A → List A
  take zero xs = []
  take (suc n) [] = []
  take (suc n) (x ∷ xs) = x ∷ take n xs

  abbrev pub drop : ℕ → List A → List A
  drop zero xs = xs
  drop (suc n) [] = []
  drop (suc n) (x ∷ xs) = drop n xs

  abbrev pub is_empty : List A → Bool
  is_empty [] = true
  is_empty (_ ∷ _) = false

  -- `xs.slice(-n)` for a positive `n`
  abbrev pub last_n : ℕ → List A → List A
  last_n n xs = drop (length xs - n) xs

  abbrev pub any : (A → Bool) → List A → Bool
  any p [] = false
  any p (x ∷ xs) = p x || any p xs

  abbrev pub all : (A → Bool) → List A → Bool
  all p [] = true
  all p (x ∷ xs) = p x && all p xs

  abbrev pub find : (A → Bool) → List A → Option A
  find p [] = none
  find p (x ∷ xs) = if p x then some x else find p xs

  abbrev pub keep : (A → Bool) → List A → List A
  keep p [] = []
  keep p (x ∷ xs) = let rest = keep p xs in if p x then x ∷ rest else rest

  pub length-append : (xs ys : List A) → length (xs ++ ys) ≡ length xs + length ys
  length-append [] ys = omega arith
  length-append (x ∷ xs) ys = omega (arith, length-append xs ys)

  pub length-take : (n : ℕ) (xs : List A) → length (take n xs) ≡ min n (length xs)
  length-take zero xs = omega arith
  length-take (suc n) [] = omega arith
  length-take (suc n) (x ∷ xs) = omega (arith, length-take n xs)

  pub length-drop : (n : ℕ) (xs : List A) → length (drop n xs) ≡ length xs - n
  length-drop zero xs = omega arith
  length-drop (suc n) [] = omega arith
  length-drop (suc n) (x ∷ xs) = omega (arith, length-drop n xs)

  pub length-last_n-le : (n : ℕ) (xs : List A) → length (last_n n xs) ≤ n
  length-last_n-le n xs = omega (arith, length-drop (length xs - n) xs)

  pub length-keep-le : (p : A → Bool) (xs : List A) → length (keep p xs) ≤ length xs
  length-keep-le p [] = omega arith
  length-keep-le p (x ∷ xs) = ground (arith, length-keep-le p xs)

  pub any_of_mem : (p : A → Bool) {x : A} (xs : List A) → Memᴰ x xs → p x ≡ true → any p xs ≡ true
  any_of_mem p [] m h = elim m [ ]
  any_of_mem p (y ∷ xs) (Memᴰ.head e) h = ground arith
  any_of_mem p (y ∷ xs) (Memᴰ.tail m) h = ground (arith, any_of_mem p xs m h)

  mem_cons-keep :
      (p : A → Bool) {x : A} (y : A) (ks xs : List A)
      → p y ≡ true
      → (Memᴰ x ks → Memᴰ x xs × (p x ≡ true))
      → Memᴰ x (y ∷ ks)
      → Memᴰ x (y ∷ xs) × (p x ≡ true)
  mem_cons-keep p y ks xs e more (Memᴰ.head q) = (Memᴰ.head q, ap p q ∙ e)
  mem_cons-keep p y ks xs e more (Memᴰ.tail m) = let (k, h) = more m in (Memᴰ.tail k, h)

  pub mem_of_keep :
      (p : A → Bool) {x : A} (xs : List A) → Memᴰ x (keep p xs) → Memᴰ x xs × (p x ≡ true)
  mem_of_keep p [] m = elim m [ ]
  mem_of_keep p (y ∷ xs) m = elim (Bool-cases (p y)) [
    | inl e ↦ mem_cons-keep p y (keep p xs) xs e (mem_of_keep p xs) (rw e at m)
    | inr e ↦ let (k, h) = mem_of_keep p xs (rw e at m) in (Memᴰ.tail k, h)
  ]

  pub keep_of_mem :
      (p : A → Bool) {x : A} (xs : List A) → Memᴰ x xs → p x ≡ true → Memᴰ x (keep p xs)
  keep_of_mem p [] m h = elim m [ ]
  keep_of_mem p (y ∷ xs) (Memᴰ.head q) h = rw (sym (ap p q) ∙ h) (Memᴰ.head q)
  keep_of_mem p (y ∷ xs) (Memᴰ.tail m) h = elim (Bool-cases (p y)) [
    | inl e ↦ rw e (Memᴰ.tail (keep_of_mem p xs m h))
    | inr e ↦ rw e (keep_of_mem p xs m h)
  ]

  pub all_at : (p : A → Bool) {x : A} (xs : List A) → all p xs ≡ true → Memᴰ x xs → p x ≡ true
  all_at p [] h m = elim m [ ]
  all_at p (y ∷ xs) h (Memᴰ.head e) = ground arith
  all_at p (y ∷ xs) h (Memᴰ.tail m) = ground (arith, all_at p xs (ground arith) m)

  pub mem_of_any :
      (p : A → Bool) (xs : List A) → any p xs ≡ true → (x : A) × Memᴰ x xs × (p x ≡ true)
  mem_of_any p (x ∷ xs) h = elim (Bool-cases (p x)) [
    | inl here ↦ (x, Memᴰ.head refl, here)
    | inr e ↦ let (y, m, q) = mem_of_any p xs (ground arith) in (y, Memᴰ.tail m, q)
  ]
  mem_of_any p [] h = absurd (ground arith)

module _ {ℓ κ} {A : Type ℓ} (P : A → Type κ) where
  abbrev pub All : List A → Type κ
  All [] = Unit
  All (x ∷ xs) = P x × All xs

  pub All-append : (xs ys : List A) → All xs → All ys → All (xs ++ ys)
  All-append [] ys h k = k
  All-append (x ∷ xs) ys (p, h) k = (p, All-append xs ys h k)

  pub All-drop : (n : ℕ) (xs : List A) → All xs → All (drop n xs)
  All-drop zero xs h = h
  All-drop (suc n) [] h = h
  All-drop (suc n) (x ∷ xs) h = All-drop n xs h.1

  pub All-keep : (p : A → Bool) (xs : List A) → All xs → All (keep p xs)
  All-keep p [] h = h
  All-keep p (x ∷ xs) (q, h) = ground (arith, All-keep p xs h)

  pub All-lookup : {x : A} (xs : List A) → All xs → Memᴰ x xs → P x
  All-lookup [] h m = elim m [ ]
  All-lookup (y ∷ xs) (q, h) (Memᴰ.head e) = rw e q
  All-lookup (y ∷ xs) (q, h) (Memᴰ.tail m) = All-lookup xs h m

module _ {ℓ κ} {A : Type ℓ} (P : A → Type κ) {xs : List A} where
  pub All-of_nil : xs ≡ [] → All P xs
  All-of_nil h = subst (All P) (sym h) tt

  pub All-of_one : {x : A} → xs ≡ x ∷ [] → P x → All P xs
  All-of_one h p = subst (All P) (sym h) (p, tt)
