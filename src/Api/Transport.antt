-- ===== src/Api/Transport.antt =====
-- `authHeaders` and `request`: what is sent for a path and an init, and what an answer means.
use Prim.Native.String.{◌++◌}
use kafkaesque.Prelude.{
  ℕ, Bool, Option, none, some, List, [], ◌∷◌, String, if◌then◌else◌, not, eqb, or_else,
}
use kafkaesque.Prelude.Texts.{is_blank}
use kafkaesque.Api.Json.{Json, str, object, member, truthy}

pub data Method : Type 0 where
  get post put delete : Method

-- The fields of `RequestInit` that the client sets. `body` is the value given to `JSON.stringify`.
pub record Request : Type 0 where
  pub method : Method
  pub path : String
  pub body : Option Json

pub record Fetch : Type 0 where
  pub request : Request
  pub headers : List (String × String)

-- The stored `sf_token` is the first argument; an empty one is no token.
unfoldable pub auth_headers : Option String → List (String × String)
auth_headers none = []
auth_headers (some token) =
    if is_blank token then [] else ("Authorization", "Bearer " ++ token) ∷ []

unfoldable pub fetch_of : Option String → Request → Fetch
unfolding auth_headers
fetch_of token r = record {
  request = r;
  headers = ("Content-Type", "application/json") ∷ auth_headers token;
}

-- `json` is `none` where the text of the answer is no JSON.
pub record Response : Type 0 where
  pub ok : Bool
  pub status : ℕ
  pub status_text : String
  pub json : Option Json

-- `failed v` is `throw new Error(v)`, `malformed` the SyntaxError of `res.json()`.
pub data Answer : Type 0 where
  failed : Json → Answer
  malformed : Answer
  no_content : Answer
  value : Json → Answer

-- `body?.error?.message || res.statusText`, with `{}` for a body that is no JSON
unfoldable pub error_message : Response → Json
error_message res =
    let message = member "message" (member "error" (some (or_else res.json (object [])))) in
    if truthy message then or_else message (str res.status_text) else str res.status_text

unfoldable pub receive : Response → Answer
unfolding error_message
receive res =
    if not res.ok
    then failed (error_message res)
    else if eqb res.status 204
    then no_content
    else elim res.json [ none ↦ malformed | some v ↦ value v ]
