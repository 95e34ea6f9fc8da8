-- ===== src/Prelude/Decimal/Injective.antt =====
-- Different numbers have different texts, also in front of other text.
use text.Mathlib.TextLemmas.{cons-append, nil-append}
use kafkaesque.Prelude.{
  ◌%◌, ◌/◌, inr, ltb→lt, if◌then◌else◌, inl, ltb, refl, ◌&&◌, ◌-◌, Bool-cases, zero, ◌∙◌, ap, arith,
  false, leb, suc, sym, ◌+◌, Bool, ◌*◌, ◌<◌, ◌≡◌, String, ℕ,
}
use Prim.Native.Char.{code, Char}
use Prim.Native.String.{◌++◌ as ◌<>◌}
use kafkaesque.Prelude.Decimal.{digit, print_from, to_text}

-- Reading a number back: its value, and what follows its digits.
abbrev pub is_digit : Char → Bool
is_digit c = leb b'0' (code c) && leb (code c) b'9'

scan : ℕ → String → ℕ × String
scan acc String.[] = (acc, "")
scan acc (String.◌∷◌ c s) =
    let more = scan (acc * 10 + (code c - b'0')) s in
    if is_digit c then more else (acc, String.◌∷◌ c s)

scan-digit :
    (acc n : ℕ) (s : String) → n < 10 → scan acc (String.◌∷◌ (digit n) s) ≡ scan (acc * 10 + n) s
unfolding scan digit
scan-digit acc zero s h = refl
scan-digit acc (suc zero) s h = refl
scan-digit acc (suc (suc zero)) s h = refl
scan-digit acc (suc (suc (suc zero))) s h = refl
scan-digit acc (suc (suc (suc (suc zero)))) s h = refl
scan-digit acc (suc (suc (suc (suc (suc zero))))) s h = refl
scan-digit acc (suc (suc (suc (suc (suc (suc zero)))))) s h = refl
scan-digit acc (suc (suc (suc (suc (suc (suc (suc zero))))))) s h = refl
scan-digit acc (suc (suc (suc (suc (suc (suc (suc (suc zero)))))))) s h = refl
scan-digit acc (suc (suc (suc (suc (suc (suc (suc (suc (suc zero))))))))) s h = refl
scan-digit acc (suc (suc (suc (suc (suc (suc (suc (suc (suc (suc n)))))))))) s h =
    absurd (omega arith)

-- Enough fuel prints all digits.
scan-print_from :
    (fuel n : ℕ) (rest : String) → n < fuel → scan 0 (print_from fuel n rest) ≡ scan n rest
unfolding print_from
scan-print_from zero n rest h = absurd (omega arith)
scan-print_from (suc fuel) n rest h = elim (Bool-cases (ltb n 10)) [
  | inl e ↦ rw e (scan-digit 0 n rest (ltb→lt n 10 e) ∙ ap (λ k. scan k rest) (omega arith))
  | inr e ↦ rw e (
      scan-print_from fuel (n / 10) (String.◌∷◌ (digit (n % 10)) rest) (ground arith)
      ∙ scan-digit (n / 10) (n % 10) rest (omega arith)
      ∙ ap (λ k. scan k rest) (omega arith))
]

print_from-append :
    (fuel n : ℕ) (rest more : String)
    → print_from fuel n rest <> more ≡ print_from fuel n (rest <> more)
unfolding print_from
print_from-append zero n rest more = refl
print_from-append (suc fuel) n rest more = elim (Bool-cases (ltb n 10)) [
  | inl e ↦ rw e (cons-append (digit n) rest more)
  | inr e ↦ rw e (
      print_from-append fuel (n / 10) (String.◌∷◌ (digit (n % 10)) rest) more
      ∙ ap (print_from fuel (n / 10)) (cons-append _ rest more))
]

-- A text that begins with no digit.
abbrev pub NoDigit : String → Type 0
NoDigit String.[] = Unit
NoDigit (String.◌∷◌ c s) = is_digit c ≡ false

scan-to_text : (n : ℕ) (rest : String) → NoDigit rest → scan 0 (to_text n <> rest) ≡ (n, rest)
unfolding to_text scan
scan-to_text n String.[] h =
    ap (scan 0) (print_from-append (suc n) n "" "" ∙ ap (print_from (suc n) n) (nil-append ""))
    ∙ scan-print_from (suc n) n "" (omega arith)
scan-to_text n (String.◌∷◌ c s) h =
    ap (scan 0) (
      print_from-append (suc n) n "" (String.◌∷◌ c s)
      ∙ ap (print_from (suc n) n) (nil-append (String.◌∷◌ c s)))
    ∙ scan-print_from (suc n) n (String.◌∷◌ c s) (omega arith)
    ∙ rw h refl

-- Two numbers printed in front of texts that begin with no digit are told apart.
pub to_text_injective :
    (m n : ℕ) (s t : String)
    → NoDigit s
    → NoDigit t
    → to_text m <> s ≡ to_text n <> t
    → (m ≡ n) × (s ≡ t)
to_text_injective m n s t h k e =
    let same = sym (scan-to_text m s h) ∙ ap (scan 0) e ∙ scan-to_text n t k in
    (ap (λ p. p.0) same, ap (λ p. p.1) same)
