-- ===== src/Api/Json.antt =====
-- JSON values, for request bodies and answers.
use kafkaesque.Prelude.{
  ℕ, Bool, true, false, Option, none, some, List, [], ◌∷◌, String, ◌==◌, if◌then◌else◌, not, eqb,
}
use kafkaesque.Prelude.Texts.{is_blank}

mutual
  pub data Json : Type 0 where
    null : Json
    bool : Bool → Json
    num : ℕ → Json
    -- the number -(n + 1)
    minus : ℕ → Json
    str : String → Json
    arr : Items → Json
    obj : Fields → Json

  pub data Items : Type 0 where
    nil : Items
    cons : Json → Items → Items

  pub data Fields : Type 0 where
    end : Fields
    field : String → Json → Fields → Fields

unfoldable pub fields_of : List (String × Json) → Fields
fields_of [] = end
fields_of ((k, v) ∷ r) = field k v (fields_of r)

-- An object literal.
unfoldable pub object : List (String × Json) → Json
unfolding fields_of
object r = obj (fields_of r)

-- `JSON.stringify` leaves a field out whose value is `undefined`.
unfoldable pub optional : String → Option Json → List (String × Json) → List (String × Json)
optional k none r = r
optional k (some v) r = (k, v) ∷ r

items_of : List Json → Items
items_of [] = nil
items_of (v ∷ vs) = cons v (items_of vs)

unfoldable pub array : List Json → Json
unfolding items_of
array vs = arr (items_of vs)

-- `v?.k`; `none` is `undefined`.
field_named : String → Fields → Option Json
field_named k end = none
field_named k (field j v r) = let rest = field_named k r in if j == k then some v else rest

unfoldable pub member : String → Option Json → Option Json
unfolding field_named
member k (some (obj r)) = field_named k r
member k _ = none

-- Whether `||` takes the left side.
unfoldable pub truthy : Option Json → Bool
truthy none = false
truthy (some null) = false
truthy (some (bool b)) = b
truthy (some (num n)) = not (eqb n 0)
truthy (some (str s)) = not (is_blank s)
truthy (some _) = true
