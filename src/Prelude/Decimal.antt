-- ===== src/Prelude/Decimal.antt =====
-- Decimal text of a natural number, as a template literal or `String(n)` prints it.
pub mod Injective
use Prim.Native.Char.{Char}
use Prim.Native.String.{◌∷◌}
use kafkaesque.Prelude.{ℕ, zero, suc, ◌/◌, ◌%◌, String, ltb, if◌then◌else◌}

-- Digits in front of a text. The fuel bounds their number: `n + 1` is more than enough.
digit : ℕ → Char
digit zero = "0"
digit (suc zero) = "1"
digit (suc (suc zero)) = "2"
digit (suc (suc (suc zero))) = "3"
digit (suc (suc (suc (suc zero)))) = "4"
digit (suc (suc (suc (suc (suc zero))))) = "5"
digit (suc (suc (suc (suc (suc (suc zero)))))) = "6"
digit (suc (suc (suc (suc (suc (suc (suc zero))))))) = "7"
digit (suc (suc (suc (suc (suc (suc (suc (suc zero)))))))) = "8"
digit (suc (suc (suc (suc (suc (suc (suc (suc (suc n))))))))) = "9"

print_from : ℕ → ℕ → String → String
print_from zero n rest = rest
print_from (suc fuel) n rest =
    let more = print_from fuel (n / 10) (digit (n % 10) ∷ rest) in
    if ltb n 10 then digit n ∷ rest else more

unfoldable pub to_text : ℕ → String
unfolding print_from digit
to_text n = print_from (suc n) n ""
