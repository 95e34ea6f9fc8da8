-- ===== src/Dashboard/Topics.antt =====
-- `TopTopicsChart` (frontend/src/components/dashboard/TopTopicsChart.tsx).
pub mod Laws
use kafkaesque.Prelude.{
  ◌++◌, eqb, ltb, take, [], if◌then◌else◌, map, not, ◌+◌, drop, keep, ℕ, ◌∷◌, List, String,
}
use kafkaesque.Api.Types.{Topic}

-- `sort((a, b) => b.partitions - a.partitions)`, which is stable: a topic goes before the first one
-- with fewer partitions.
insert : Topic → List Topic → List Topic
insert t [] = t ∷ []
insert t (u ∷ us) =
    let rest = insert t us in if ltb t.partitions u.partitions then u ∷ rest else t ∷ u ∷ us

sort : List Topic → List Topic
sort [] = []
sort (t ∷ ts) = insert t (sort ts)

unfoldable pub visible : List Topic → List Topic
unfolding insert sort
visible topics = sort (keep (λ t. not t.internal) topics)

abbrev pub partitions_of : List Topic → ℕ
partitions_of [] = 0
partitions_of (t ∷ ts) = t.partitions + partitions_of ts

pub record Slice : Type 0 where
  pub name : String
  pub value : ℕ

abbrev slice_of : Topic → Slice
slice_of t = record { name = t.name; value = t.partitions }

unfoldable pub slices : List Topic → List Slice
slices topics =
    let vs = visible topics in
    let others = partitions_of (drop 4 vs) in
    map slice_of (take 4 vs)
    ++ (if ltb 0 others then record { name = "others"; value = others } ∷ [] else [])

-- `totalPartitions`
unfoldable pub total_partitions : List Topic → ℕ
total_partitions topics = let n = partitions_of (visible topics) in if eqb n 0 then 1 else n
