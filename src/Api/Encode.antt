-- ===== src/Api/Encode.antt =====
-- `encodeURIComponent` and `URLSearchParams.toString`, over texts of Unicode scalar values.
use Prim.Native.Char.{Char, code}
use Prim.Native.String.{[], ◌∷◌, ◌++◌}
use kafkaesque.Prelude.{
  ℕ, zero, suc, ◌+◌, ◌/◌, ◌%◌, Bool, ◌||◌, ◌&&◌, List, String, ltb, leb, eqb, if◌then◌else◌,
}

unfoldable pub char_at : String → ℕ → Char
char_at [] n = "0"
char_at (c ∷ s) zero = c
char_at (c ∷ s) (suc n) = char_at s n

unfoldable pub hex_digit : ℕ → Char
unfolding char_at
hex_digit n = char_at "0123456789ABCDEF" n

-- The UTF-8 bytes of a code point.
unfoldable pub utf8 : ℕ → List ℕ
utf8 n =
    if ltb n 128
    then List.◌∷◌ n List.[]
    else if ltb n 2048
    then List.◌∷◌ (192 + n / 64) (List.◌∷◌ (128 + n % 64) List.[])
    else if ltb n 65536
    then List.◌∷◌ (224 + n / 4096) (List.◌∷◌ (128 + n / 64 % 64) (List.◌∷◌ (128 + n % 64) List.[]))
    else List.◌∷◌ (240 + n / 262144) (
        List.◌∷◌ (128 + n / 4096 % 64)
          (List.◌∷◌ (128 + n / 64 % 64) (List.◌∷◌ (128 + n % 64) List.[])))

-- `%XX` for each byte, in front of a text.
unfoldable pub percent : List ℕ → String → String
percent List.[] rest = rest
percent (List.◌∷◌ b bs) rest = "%" ∷ (hex_digit (b / 16) ∷ (hex_digit (b % 16) ∷ percent bs rest))

abbrev pub is_alphanumeric : ℕ → Bool
is_alphanumeric n =
    (leb b'a' n && leb n b'z') || (leb b'A' n && leb n b'Z') || (leb b'0' n && leb n b'9')

-- The characters that `encodeURIComponent` leaves: letters, digits and - _ . ! ~ * ' ( ).
unfoldable pub is_unreserved : ℕ → Bool
is_unreserved n =
    is_alphanumeric n
    || eqb n 45
    || eqb n 95
    || eqb n 46
    || eqb n 33
    || eqb n 126
    || eqb n 42
    || eqb n 39
    || eqb n 40
    || eqb n 41

unfoldable pub encode_uri_component : String → String
unfolding percent hex_digit utf8 is_unreserved
encode_uri_component [] = []
encode_uri_component (c ∷ s) =
    let rest = encode_uri_component s in
    if is_unreserved (code c) then c ∷ rest else percent (utf8 (code c)) rest

-- The characters that form encoding leaves: letters, digits and * - . _ .
unfoldable pub is_form_safe : ℕ → Bool
is_form_safe n = is_alphanumeric n || eqb n 42 || eqb n 45 || eqb n 46 || eqb n 95

unfoldable pub form_encode : String → String
unfolding percent hex_digit utf8 is_form_safe
form_encode [] = []
form_encode (c ∷ s) =
    let rest = form_encode s in
    if is_form_safe (code c)
    then c ∷ rest
    else if eqb (code c) 32
    then "+" ∷ rest
    else percent (utf8 (code c)) rest

-- `new URLSearchParams(pairs).toString()`
unfoldable pub search_params : List (String × String) → String
unfolding form_encode
search_params List.[] = ""
search_params (List.◌∷◌ (k, v) List.[]) = form_encode k ++ ("=" ++ form_encode v)
search_params (List.◌∷◌ (k, v) (List.◌∷◌ p ps)) =
    form_encode k ++ ("=" ++ (form_encode v ++ ("&" ++ search_params (List.◌∷◌ p ps))))
