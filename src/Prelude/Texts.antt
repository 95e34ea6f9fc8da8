-- ===== src/Prelude/Texts.antt =====
-- The string methods of the source over native texts: sequences of Unicode scalar values.
-- Case mapping is that of ASCII. A text whose case mapping leaves ASCII is mapped letter by letter
-- outside of it as by the identity.
use Prim.Native.Char.{Char, code}
use Prim.Native.String.{[], ◌∷◌}
use kafkaesque.Prelude.{
  ◌≡◌, sym, Memᴰ, arith, eq_iff, inl, inr, or-cases, ℕ, zero, suc, ◌+◌, ◌-◌, ◌*◌, Bool, true, false,
  ◌&&◌, ◌||◌, Option, none, some, List, String, leb, eqb, if◌then◌else◌, ◌==◌, is_some,
}
use text.Mathlib.Text.{find?}

abbrev upper_letters : String
upper_letters = "ABCDEFGHIJKLMNOPQRSTUVWXYZ"

abbrev lower_letters : String
lower_letters = "abcdefghijklmnopqrstuvwxyz"

-- The letter of the second table at the place of `c` in the first, or `c` itself.
swap_case : String → String → Char → Char
swap_case [] _ c = c
swap_case (_ ∷ _) [] c = c
swap_case (a ∷ froms) (b ∷ tos) c =
    let rest = swap_case froms tos c in if eqb (code a) (code c) then b else rest

each : (Char → Char) → String → String
each f [] = []
each f (c ∷ s) = f c ∷ each f s

-- Besides the ASCII letters, the dotless i and the long s have an ASCII letter as their upper case.
unfoldable pub to_upper : String → String
unfolding each swap_case
to_upper s = each (swap_case "abcdefghijklmnopqrstuvwxyzıſ" "ABCDEFGHIJKLMNOPQRSTUVWXYZIS") s

unfoldable pub to_lower : String → String
unfolding each swap_case
to_lower s = each (swap_case upper_letters lower_letters) s

-- White space and line terminators of ECMAScript.
unfoldable pub is_space : Char → Bool
is_space c =
    let n = code c in
    (leb 9 n && leb n 13)
    || eqb n 32
    || eqb n 160
    || eqb n 5760
    || (leb 8192 n && leb n 8202)
    || eqb n 8232
    || eqb n 8233
    || eqb n 8239
    || eqb n 8287
    || eqb n 12288
    || eqb n 65279

unfoldable pub trim_start : String → String
unfolding is_space
trim_start [] = []
trim_start (c ∷ s) = let rest = trim_start s in if is_space c then rest else c ∷ s

-- `none` while only white space follows.
unfoldable pub trim_end : String → String
unfolding is_space
trim_end [] = []
trim_end (c ∷ s) = elim (trim_end s) [
  | String.[] ↦ if is_space c then [] else c ∷ []
  | String.◌∷◌ d t ↦ c ∷ (d ∷ t)
]

unfoldable pub trim : String → String
unfolding trim_start trim_end
trim s = trim_end (trim_start s)

abbrev pub is_blank : String → Bool
is_blank [] = true
is_blank (_ ∷ _) = false

-- `x || null`: an empty text is no value.
abbrev pub some_text : Option String → Option String
some_text none = none
some_text (some s) = if is_blank s then none else some s

-- `s.includes(t)` on texts
abbrev pub has_text : String → String → Bool
has_text s t = is_some (find? s t)

abbrev pub includes : List String → String → Bool
includes List.[] t = false
includes (List.◌∷◌ s ss) t = s == t || includes ss t

-- `s.split(c)[0]`
unfoldable pub before : Char → String → String
before sep [] = []
before sep (c ∷ s) = if eqb (code c) (code sep) then [] else c ∷ before sep s

-- `s.split(c).pop()`: what follows the last `c`, or `none` where there is none
after_last? : Char → String → Option String
after_last? sep [] = none
after_last? sep (c ∷ s) = elim (after_last? sep s) [
  | none ↦ if eqb (code c) (code sep) then some s else none
  | some t ↦ some t
]

unfoldable pub after_last : Char → String → String
unfolding after_last?
after_last sep s = elim (after_last? sep s) [ none ↦ s | some t ↦ t ]

-- `s.replace(/c/g, d)`
unfoldable pub replace_char : Char → Char → String → String
unfolding each
replace_char from to s = each (λ c. if eqb (code c) (code from) then to else c) s

-- What follows the first `c`, or `none` where there is none
after_first? : Char → String → Option String
after_first? sep [] = none
after_first? sep (c ∷ s) =
    let rest = after_first? sep s in if eqb (code c) (code sep) then some s else rest

-- `s.replace(/^[^c]+c/, '')`
unfoldable pub strip_prefix : Char → String → String
unfolding after_first?
strip_prefix sep [] = []
strip_prefix sep (c ∷ s) =
    if eqb (code c) (code sep)
    then c ∷ s
    else elim (after_first? sep s) [ none ↦ c ∷ s | some t ↦ t ]

-- `s.replace(/\s+/g, d)`; `after` says that the character before was white space.
dash_spaces : Bool → Char → String → String
unfolding is_space
dash_spaces after d [] = []
dash_spaces after d (c ∷ s) =
    let space = dash_spaces true d s in
    let other = c ∷ dash_spaces false d s in
    if is_space c then if after then space else d ∷ space else other

unfoldable pub replace_spaces : Char → String → String
unfolding dash_spaces
replace_spaces d s = dash_spaces false d s

-- `s.slice(n)` of a text whose first `n` characters have one UTF-16 unit each
abbrev pub drop_text : ℕ → String → String
drop_text zero s = s
drop_text (suc n) [] = []
drop_text (suc n) (c ∷ s) = drop_text n s

-- What `parseInt` and a comparison need of a signed integer; `negsuc n` is -(n + 1).
pub data ℤ : Type 0 where
  pos : ℕ → ℤ
  negsuc : ℕ → ℤ

is_digit : Char → Bool
is_digit c = leb b'0' (code c) && leb (code c) b'9'

-- The digits at the front; `none` where the first character is no digit.
digits_from : Option ℕ → String → Option ℕ
digits_from acc [] = acc
digits_from acc (c ∷ s) =
    let more = digits_from (some (elim acc [ none ↦ 0 | some n ↦ n ] * 10 + (code c - b'0'))) s in
    if is_digit c then more else acc

negate : ℕ → ℤ
negate zero = pos 0
negate (suc n) = negsuc n

signed : String → Option ℤ
signed [] = none
signed (c ∷ s) =
    if eqb (code c) b'-'
    then elim (digits_from none s) [ none ↦ none | some n ↦ some (negate n) ]
    else elim (digits_from none (if eqb (code c) b'+' then s else c ∷ s)) [
      | none ↦ none
      | some n ↦ some (pos n)
    ]

-- `parseInt(s, 10)`; `none` is NaN.
unfoldable pub parse_int : String → Option ℤ
unfolding trim_start signed digits_from is_digit negate
parse_int s = signed (trim_start s)

pub mem_of_includes : (xs : List String) (t : String) → includes xs t ≡ true → Memᴰ t xs
mem_of_includes List.[] t h = absurd (ground arith)
mem_of_includes (List.◌∷◌ x xs) t h = elim (or-cases (x == t) (includes xs t) h) [
  | inl e ↦ Memᴰ.head (sym ((eq_iff x t).0 e))
  | inr e ↦ Memᴰ.tail (mem_of_includes xs t e)
]

pub includes_of_mem : (xs : List String) {t : String} → Memᴰ t xs → includes xs t ≡ true
includes_of_mem List.[] m = elim m [ ]
includes_of_mem (List.◌∷◌ x xs) {t} (Memᴰ.head e) = ground (arith, (eq_iff x t).1 (sym e))
includes_of_mem (List.◌∷◌ x xs) {t} (Memᴰ.tail m) = ground (arith, includes_of_mem xs m)
