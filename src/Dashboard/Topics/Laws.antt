-- ===== src/Dashboard/Topics/Laws.antt =====
-- What the ring of the largest topics shows.
use mathlib.Core.List.{Perm}
use kafkaesque.Api.Types.{Topic}
use kafkaesque.Dashboard.Topics.{slice_of, partitions_of, Slice, insert, sort, visible, slices}
use kafkaesque.Prelude.{
  length-take, if◌then◌else◌, length-append, min, inr, ltb→lt, inl, ltb, Bool-cases, zero, ap, suc,
  arith, drop, not, refl, ◌∙◌, All, [], keep, take, ◌++◌, ◌+◌, ◌≡◌, length, map, ◌∷◌, ◌≤◌, List, ℕ,
}
use mathlib.Core.List.Perm

insert-perm : (t : Topic) (ts : List Topic) → Perm (insert t ts) (t ∷ ts)
unfolding insert
insert-perm t [] = Perm.refl (t ∷ [])
insert-perm t (u ∷ us) = elim (Bool-cases (ltb t.partitions u.partitions)) [
  | inl e ↦ rw e (Perm.trans (Perm.cons u (insert-perm t us)) (Perm.swap t u us))
  | inr e ↦ rw e (Perm.refl (t ∷ u ∷ us))
]

sort-perm : (ts : List Topic) → Perm (sort ts) ts
unfolding sort
sort-perm [] = Perm.refl []
sort-perm (t ∷ ts) = Perm.trans (insert-perm t (sort ts)) (Perm.cons t (sort-perm ts))

-- Each topic has at least as many partitions as those after it.
abbrev pub Descending : List Topic → Type 0
Descending [] = Unit
Descending (t ∷ ts) = All (λ u. u.partitions ≤ t.partitions) ts × Descending ts

insert-All :
    (n : ℕ) (t : Topic) (ts : List Topic)
    → t.partitions ≤ n
    → All (λ u. u.partitions ≤ n) ts
    → All (λ u. u.partitions ≤ n) (insert t ts)
unfolding insert
insert-All n t [] h a = (h, tt)
insert-All n t (u ∷ us) h (k, a) = elim (Bool-cases (ltb t.partitions u.partitions)) [
  | inl e ↦ rw e (k, insert-All n t us h a)
  | inr e ↦ rw e (h, (k, a))
]

All-below :
    (m n : ℕ) (ts : List Topic)
    → m ≤ n
    → All (λ u. u.partitions ≤ m) ts
    → All (λ u. u.partitions ≤ n) ts
All-below m n [] h a = tt
All-below m n (t ∷ ts) h (l, a) = (omega arith, All-below m n ts h a)

insert-Descending : (t : Topic) (ts : List Topic) → Descending ts → Descending (insert t ts)
unfolding insert
insert-Descending t [] d = (tt, tt)
insert-Descending t (u ∷ us) (a, d) = elim (Bool-cases (ltb t.partitions u.partitions)) [
  | inl e ↦
      let l = ltb→lt t.partitions u.partitions e in
      rw e (insert-All u.partitions t us (omega arith) a, insert-Descending t us d)
  | inr e ↦
      let l : u.partitions ≤ t.partitions = ground arith in
      rw e ((l, All-below u.partitions t.partitions us l a), (a, d))
]

sort-Descending : (ts : List Topic) → Descending (sort ts)
unfolding sort
sort-Descending [] = tt
sort-Descending (t ∷ ts) = insert-Descending t (sort ts) (sort-Descending ts)

partitions_of-append :
    (ts us : List Topic) → partitions_of (ts ++ us) ≡ partitions_of ts + partitions_of us
partitions_of-append [] us = omega arith
partitions_of-append (t ∷ ts) us = ground (arith, partitions_of-append ts us)

partitions_of-insert :
    (t : Topic) (ts : List Topic) → partitions_of (insert t ts) ≡ t.partitions + partitions_of ts
unfolding insert
partitions_of-insert t [] = omega arith
partitions_of-insert t (u ∷ us) = ground (arith, partitions_of-insert t us)

partitions_of-sort : (ts : List Topic) → partitions_of (sort ts) ≡ partitions_of ts
unfolding sort
partitions_of-sort [] = refl
partitions_of-sort (t ∷ ts) =
    partitions_of-insert t (sort ts) ∙ ap (λ n. t.partitions + n) (partitions_of-sort ts)

abbrev pub values : List Slice → ℕ
values [] = 0
values (s ∷ ss) = s.value + values ss

values-slices :
    (ts : List Topic) (more : List Slice)
    → values (map slice_of ts ++ more) ≡ partitions_of ts + values more
values-slices [] more = omega arith
values-slices (t ∷ ts) more = ground (arith, values-slices ts more)

partitions_of-drop :
    (n : ℕ) (ts : List Topic)
    → partitions_of (take n ts) + partitions_of (drop n ts) ≡ partitions_of ts
partitions_of-drop zero ts = omega arith
partitions_of-drop (suc n) [] = omega arith
partitions_of-drop (suc n) (t ∷ ts) = ground (arith, partitions_of-drop n ts)

abbrev others : ℕ → List Slice
others n = if ltb 0 n then record { name = "others"; value = n } ∷ [] else []

others-values : (n : ℕ) → (values (others n) ≡ n) × (length (others n) ≤ 1)
others-values n = elim (Bool-cases (ltb 0 n)) [
  | inl e ↦ rw e (omega arith, omega arith)
  | inr e ↦ rw e (ground arith, omega arith)
]

length-slices : (ts : List Topic) → length (map slice_of ts) ≡ length ts
length-slices [] = refl
length-slices (t ∷ ts) = ap suc (length-slices ts)

slices-bound :
    (ts : List Topic) (n m : ℕ)
    → length ts ≡ min 4 m
    → length (map slice_of ts) + length (others n) ≤ 5
slices-bound ts n m h = let one = (others-values n).1 in let same = length-slices ts in omega arith

-- The topics of the ring are those that are not internal, each one once, the ones with the most
-- partitions first.
pub visible-Descending :
    (topics : List Topic)
    → Perm (visible topics) (keep (λ t. not t.internal) topics) × Descending (visible topics)
unfolding visible
visible-Descending topics = (
  sort-perm (keep (λ t. not t.internal) topics),
  sort-Descending (keep (λ t. not t.internal) topics),
)

-- The at most five slices together have all partitions of the topics that are not internal: none is
-- lost and none counted twice.
pub slices_complete :
    (topics : List Topic)
    → (length (slices topics) ≤ 5)
      × (values (slices topics) ≡ partitions_of (keep (λ t. not t.internal) topics))
unfolding slices visible
slices_complete topics =
    let vs = sort (keep (λ t. not t.internal) topics) in
    let n = partitions_of (drop 4 vs) in
    (
      rw (length-append (map slice_of (take 4 vs)) (others n))
          (slices-bound (take 4 vs) n (length vs) (length-take 4 vs)),
      values-slices (take 4 vs) (others n)
          ∙ ap (λ k. partitions_of (take 4 vs) + k) (others-values n).0
          ∙ partitions_of-drop 4 vs
          ∙ partitions_of-sort (keep (λ t. not t.internal) topics),
    )
