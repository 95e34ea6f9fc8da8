-- ===== src/Api/Paths.antt =====
-- A name that is put into a path by `encodeURIComponent` stays one segment of it.
use kafkaesque.Api.Json.{Json}
use text.Mathlib.TextLemmas.{cons-append, nil-append}
use Prim.Native.Char.{code}
use kafkaesque.Api.Client.{
  messages, live_tail_url, get_schema, publish, partitions, restart_connector, delete_connector,
  delete_topic, in_cluster,
}
use kafkaesque.Api.Encode.{
  search_params, is_alphanumeric, char_at, encode_uri_component, hex_digit, is_unreserved, percent,
}
use kafkaesque.Prelude.{
  [], sym, ap, zero, ◌∙◌, eqb_iff, inr, suc, ◌%◌, and-cases, inl, none, refl, ◌&&◌, ◌/◌, Bool-cases,
  arith, false, true, ◌+◌, ◌∷◌, Bool, List, eqb, if◌then◌else◌, ◌≡◌, String, ℕ, Option,
}
use Prim.Native.String.{◌++◌ as ◌<>◌}

-- How often a character stands in a text.
abbrev pub count_of : ℕ → String → ℕ
count_of n String.[] = 0
count_of n (String.◌∷◌ c s) = (if eqb (code c) n then 1 else 0) + count_of n s

count_of-append : (n : ℕ) (s t : String) → count_of n (s <> t) ≡ count_of n s + count_of n t
count_of-append n String.[] t = rw nil-append (omega arith)
count_of-append n (String.◌∷◌ c s) t = rw cons-append (omega (arith, count_of-append n s t))

all_alphanumeric : String → Bool
all_alphanumeric String.[] = true
all_alphanumeric (String.◌∷◌ c s) = is_alphanumeric (code c) && all_alphanumeric s

char_at-alphanumeric :
    (s : String) (n : ℕ) → all_alphanumeric s ≡ true → is_alphanumeric (code (char_at s n)) ≡ true
unfolding char_at all_alphanumeric
char_at-alphanumeric String.[] n h = refl
char_at-alphanumeric (String.◌∷◌ c s) zero h = (and-cases _ _ h).0
char_at-alphanumeric (String.◌∷◌ c s) (suc n) h = char_at-alphanumeric s n (and-cases _ _ h).1

hex_digit-alphanumeric : (n : ℕ) → is_alphanumeric (code (hex_digit n)) ≡ true
unfolding hex_digit all_alphanumeric
hex_digit-alphanumeric n = char_at-alphanumeric "0123456789ABCDEF" n refl

-- The characters that end or divide a segment of a path.
pub data Separator : ℕ → Type 0 where
  slash : Separator 47
  question_mark : Separator 63
  hash : Separator 35
  ampersand : Separator 38

-- What a separator is not.
record IsApart (n : ℕ) : Type 0 where
  not_percent : eqb 37 n ≡ false
  not_unreserved : is_unreserved n ≡ false
  not_alphanumeric : is_alphanumeric n ≡ false

Separator-IsApart : {n : ℕ} → Separator n → IsApart n
unfolding is_unreserved
Separator-IsApart slash = record {
  not_percent = refl;
  not_unreserved = refl;
  not_alphanumeric = refl;
}
Separator-IsApart question_mark = record {
  not_percent = refl;
  not_unreserved = refl;
  not_alphanumeric = refl;
}
Separator-IsApart hash = record {
  not_percent = refl;
  not_unreserved = refl;
  not_alphanumeric = refl;
}
Separator-IsApart ampersand = record {
  not_percent = refl;
  not_unreserved = refl;
  not_alphanumeric = refl;
}

apart : (f : ℕ → Bool) (m n : ℕ) → f m ≡ true → f n ≡ false → eqb m n ≡ false
apart f m n h k = elim (Bool-cases (eqb m n)) [
  | inl e ↦ let same = (eqb_iff m n).0 e in absurd (cc (ap f same))
  | inr e ↦ e
]

count_of-percent :
    (n : ℕ) (bs : List ℕ) (rest : String)
    → IsApart n
    → count_of n (percent bs rest) ≡ count_of n rest
unfolding percent
count_of-percent n [] rest h = refl
count_of-percent n (b ∷ bs) rest h =
    let high =
      apart is_alphanumeric (code (hex_digit (b / 16))) n (hex_digit-alphanumeric (b / 16))
        h.not_alphanumeric in
    let low =
      apart is_alphanumeric (code (hex_digit (b % 16))) n (hex_digit-alphanumeric (b % 16))
        h.not_alphanumeric in
    rw (h.not_percent, high, low) (omega (arith, count_of-percent n bs rest h))

count_of-encode : (n : ℕ) (s : String) → IsApart n → count_of n (encode_uri_component s) ≡ 0
unfolding encode_uri_component
count_of-encode n String.[] h = refl
count_of-encode n (String.◌∷◌ c s) h = elim (Bool-cases (is_unreserved (code c))) [
  | inl e ↦ rw e (
      rw (apart is_unreserved (code c) n e h.not_unreserved) (omega (arith, count_of-encode n s h)))
  | inr e ↦ rw e (count_of-percent n _ _ h ∙ count_of-encode n s h)
]

-- No character of an encoded name ends or divides a segment.
pub encode_uri_component-plain :
    {n : ℕ} (s : String) → Separator n → count_of n (encode_uri_component s) ≡ 0
encode_uri_component-plain {n} s sep = count_of-encode n s (Separator-IsApart sep)

count_of-in_cluster :
    (n : ℕ) (id rest : String)
    → count_of n (in_cluster id rest)
      ≡ count_of n "/api/v1/clusters/" + (count_of n id + count_of n rest)
unfolding in_cluster
count_of-in_cluster n id rest =
    omega (arith, count_of-append n "/api/v1/clusters/" (id <> rest), count_of-append n id rest)

-- A path into a cluster that names a thing between two fixed parts.
named_path :
    {n : ℕ} (id before name after : String)
    → Separator n
    → count_of n (in_cluster id (before <> (encode_uri_component name <> after)))
      ≡ count_of n (in_cluster id (before <> after))
named_path {n} id before name after sep = omega (
  arith,
  count_of-in_cluster n id (before <> (encode_uri_component name <> after)),
  count_of-in_cluster n id (before <> after),
  count_of-append n before (encode_uri_component name <> after),
  count_of-append n (encode_uri_component name) after,
  count_of-append n before after,
  encode_uri_component-plain name sep,
)

named_path_end :
    {n : ℕ} (id before name : String)
    → Separator n
    → count_of n (in_cluster id (before <> encode_uri_component name))
      ≡ count_of n (in_cluster id before)
named_path_end {n} id before name sep = omega (
  arith,
  count_of-in_cluster n id (before <> encode_uri_component name),
  count_of-in_cluster n id before,
  count_of-append n before (encode_uri_component name),
  encode_uri_component-plain name sep,
)

count_of-rest :
    (n : ℕ) (s t t' : String)
    → count_of n t ≡ count_of n t'
    → count_of n (s <> t) ≡ count_of n (s <> t')
count_of-rest n s t t' e = omega (arith, e, count_of-append n s t, count_of-append n s t')

live_path :
    {n : ℕ} (token : Option String) (secure : Bool) (host id topic : String) (partition : Option ℕ)
    → Separator n
    → count_of n (live_tail_url token secure host id topic partition)
      ≡ count_of n (live_tail_url token secure host id "" partition)
unfolding live_tail_url in_cluster
live_path {n} token secure host id topic partition sep = count_of-rest n _ _ _ (
    count_of-rest n "//" _ _ (
      count_of-rest n host _ _
        (named_path id "/topics/" topic _ sep ∙ sym (named_path id "/topics/" "" _ sep))))

-- Whatever a topic is called, the paths of its requests have the segments of their fixed parts: the
-- name can neither add a segment nor begin a query or a fragment.
pub topic_paths :
    {n : ℕ} (id topic : String) (body : Json) (params : List (String × String))
    (token : Option String) (secure : Bool) (host : String) (partition : Option ℕ)
    → Separator n
    → (count_of n (delete_topic id topic).path ≡ count_of n (in_cluster id "/topics/"))
      × (count_of n (partitions id topic).path ≡ count_of n (in_cluster id "/topics//partitions"))
      × (count_of n (publish id topic body).path ≡ count_of n (in_cluster id "/topics//messages"))
      × (count_of n (messages id topic params).path
          ≡ count_of n (in_cluster id ("/topics/" <> ("/messages?" <> search_params params))))
      × (count_of n (live_tail_url token secure host id topic partition)
          ≡ count_of n (live_tail_url token secure host id "" partition))
unfolding delete_topic partitions publish messages
topic_paths id topic body params token secure host partition sep = (
  named_path_end id "/topics/" topic sep,
  named_path id "/topics/" topic "/partitions" sep,
  named_path id "/topics/" topic "/messages" sep,
  named_path id "/topics/" topic ("/messages?" <> search_params params) sep,
  live_path token secure host id topic partition sep,
)

-- So for a connector and a schema subject.
pub service_paths :
    {n : ℕ} (id name : String)
    → Separator n
    → (count_of n (delete_connector id name).path ≡ count_of n (in_cluster id "/connectors/"))
      × (count_of n (restart_connector id name).path
          ≡ count_of n (in_cluster id "/connectors//restart"))
      × (count_of n (get_schema id name none).path ≡ count_of n (in_cluster id "/schemas/"))
unfolding delete_connector restart_connector get_schema
service_paths id name sep = (
  named_path_end id "/connectors/" name sep,
  named_path id "/connectors/" name "/restart" sep,
  named_path id "/schemas/" name "" sep ∙ refl,
)
