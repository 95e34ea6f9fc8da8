-- ===== src/Api/Client/Base.antt =====
-- How the functions of `api` build a request.
use Prim.Native.String.{◌++◌}
use kafkaesque.Prelude.{Bool, Option, none, some, List, String, map}
use kafkaesque.Api.Json.{Json, bool, str, array}
use kafkaesque.Api.Transport.{Request, get, post, put, delete}

abbrev pub fetch : String → Request
fetch path = record { method = get; path = path; body = none }

-- A POST with no body.
abbrev pub poke : String → Request
poke path = record { method = post; path = path; body = none }

abbrev pub send : String → Json → Request
send path body = record { method = post; path = path; body = some body }

abbrev pub replace : String → Json → Request
replace path body = record { method = put; path = path; body = some body }

abbrev pub discard : String → Request
discard path = record { method = delete; path = path; body = none }

abbrev pub strings : List String → Json
strings texts = array (map str texts)

abbrev pub opt_text : Option String → Option Json
opt_text none = none
opt_text (some s) = some (str s)

abbrev pub opt_bool : Option Bool → Option Json
opt_bool none = none
opt_bool (some b) = some (bool b)

-- A path below one cluster. The cluster's id is not encoded.
unfoldable pub in_cluster : String → String → String
in_cluster id rest = "/api/v1/clusters/" ++ (id ++ rest)
