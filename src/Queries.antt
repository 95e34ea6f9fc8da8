-- ===== src/Queries.antt =====
-- What the components read: each `useQuery` of frontend/src, as the key, the request, the condition and
-- the interval that it gives to react-query, which stores an answer under its key.
pub mod Shell
pub mod Resources
pub mod Overview
pub mod Sites
pub mod Keys
pub mod Refresh
pub mod Reads
use kafkaesque.Prelude.{ℕ, Bool, not, true, Option, none, some, List, String}
use kafkaesque.Prelude.Texts.{is_blank}
use kafkaesque.Api.Transport.{Request}

-- A member of a key, up to what `JSON.stringify` makes of it: `absent` is `undefined` or `null`, and
-- `filters` the object of the page of ACLs.
pub data Key : Type 0 where
  text : String → Key
  absent : Key
  filters : Option String → Option String → Key

-- `fetch` is `none` where the function of the query throws before it calls `api`; `every` is
-- `refetchInterval`, in ms.
pub record Query : Type 0 where
  pub key : List Key
  pub fetch : Option Request
  pub enabled : Bool
  pub every : Option ℕ

-- A query with its key and its request only.
abbrev pub query : List Key → Request → Query
query key r = record { key = key; fetch = some r; enabled = true; every = none }

-- `!!text`
abbrev pub given : String → Bool
given s = not (is_blank s)

abbrev pub opt_key : Option String → Key
opt_key none = absent
opt_key (some s) = text s
