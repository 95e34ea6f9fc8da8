-- ===== src/Context/Clusters/Laws.antt =====
-- What the provider of the selected cluster keeps.
use kafkaesque.Api.Types.{Cluster}
use kafkaesque.Prelude.Texts.{is_blank}
use kafkaesque.Prelude.{
  eq_iff, inr, sym, inl, Bool-cases, Option-cases, eq_refl, ◌∙◌, Memᴰ, [], if◌then◌else◌, some, any,
  false, find, refl, true, ◌⊎◌, Option, arith, is_some, ◌∷◌, ◌≡◌, Bool, List, String, or_else,
}
use kafkaesque.Context.Clusters.{
  has_id, loaded, Query, has_clusters, selected_cluster, cluster_ready, exposed_id, initial,
  set_cluster_id, sync, sync_with, Selection,
}

-- localStorage holds the identifier of the state, and nothing where there is none.
abbrev pub IsStored : Selection → Type 0
IsStored s = or_else s.stored "" ≡ s.cluster_id

initial-IsStored : (stored : Option String) → IsStored (initial stored)
unfolding initial
initial-IsStored stored = refl

blank-eq : (s : String) → is_blank s ≡ true → s ≡ ""
blank-eq String.[] h = refl
blank-eq (String.◌∷◌ c s) h = absurd (ground arith)

set_cluster_id-IsStored : (id : String) (s : Selection) → IsStored (set_cluster_id id s)
unfolding set_cluster_id
set_cluster_id-IsStored id s = ground (arith, blank-eq id)

sync-IsStored : (q : Query) (s : Selection) → IsStored s → IsStored (sync q s)
unfolding sync
sync-IsStored q s h =
    elim (loaded q) as (λ cs. IsStored (if q.is_loading then s else sync_with cs s)) [
      | [] ↦ ground (arith, blank-eq s.cluster_id)
      | c ∷ cs ↦ ground arith
    ]

-- A change of the selection: by the user, or by the effect after a load.
pub data Change : Type 0 where
  chosen : String → Change
  synced : Query → Change

unfoldable pub change : Change → Selection → Selection
change (chosen id) s = set_cluster_id id s
change (synced q) s = sync q s

unfoldable pub changes : List Change → Selection → Selection
changes [] s = s
changes (c ∷ cs) s = changes cs (change c s)

changes-keep : (cs : List Change) (s : Selection) → IsStored s → IsStored (changes cs s)
unfolding changes change
changes-keep [] s h = h
changes-keep (chosen id ∷ cs) s h = changes-keep cs _ (set_cluster_id-IsStored id s)
changes-keep (synced q ∷ cs) s h = changes-keep cs _ (sync-IsStored q s h)

-- Whatever the user selects and the server answers, the page starts the next time with the same
-- selection: localStorage holds it.
pub changes-initial :
    (stored : Option String) (cs : List Change)
    → initial (changes cs (initial stored)).stored ≡ changes cs (initial stored)
unfolding initial
changes-initial stored cs =
    ground (arith, changes-keep cs (initial stored) (initial-IsStored stored))

any-is_some-find : {A : Type 0} (p : A → Bool) (xs : List A) → is_some (find p xs) ≡ any p xs
any-is_some-find p [] = refl
any-is_some-find p (x ∷ xs) = ground (arith, any-is_some-find p xs)

sync_with-valid :
    (c : Cluster) (cs : List Cluster) (s : Selection)
    → any (has_id (sync_with (c ∷ cs) s).cluster_id) (c ∷ cs) ≡ true
unfolding sync_with
sync_with-valid c cs s = ground (arith, eq_refl c.id)

-- After a load that found clusters, one of them is selected and the context is ready; it is the one
-- that was selected before, if the list still has it, and else the first.
pub sync-ready :
    (q : Query) (s : Selection) (c : Cluster) (cs : List Cluster)
    → q.is_loading ≡ false
    → q.items ≡ some (c ∷ cs)
    → (cluster_ready q (sync q s) ≡ true)
      × ((sync q s).cluster_id
          ≡ (if any (has_id s.cluster_id) (c ∷ cs) then s.cluster_id else c.id))
unfolding cluster_ready sync has_clusters selected_cluster
sync-ready q s c cs l e = (
  rw (l, e)
      (any-is_some-find (has_id (sync_with (c ∷ cs) s).cluster_id) (c ∷ cs)
        ∙ sync_with-valid c cs s),
  ground arith,
)

-- A load that ends with no clusters, a failed one too, clears a selection that localStorage holds, and
-- what is stored of it.
pub sync-cleared :
    (q : Query) (s : Selection)
    → IsStored s
    → q.is_loading ≡ false
    → loaded q ≡ []
    → ((sync q s).cluster_id ≡ "")
      × (or_else (sync q s).stored "" ≡ "")
      × (cluster_ready q (sync q s) ≡ false)
unfolding sync cluster_ready has_clusters
sync-cleared q s h l e = (ground arith, sync-IsStored q s h ∙ ground arith, ground arith)

sync_with_idempotent :
    (cs : List Cluster) (s : Selection) → sync_with cs (sync_with cs s) ≡ sync_with cs s
unfolding sync_with
sync_with_idempotent [] s = refl
sync_with_idempotent (c ∷ cs) s = ground (arith, eq_refl c.id)

-- Running the effect a second time changes nothing.
sync_idempotent : (q : Query) (s : Selection) → sync q (sync q s) ≡ sync q s
unfolding sync
sync_idempotent q s = elim (Bool-cases q.is_loading) [
  | inl l ↦ rw l refl
  | inr l ↦ rw l (sync_with_idempotent (loaded q) s)
]

mem_of_find :
    {A : Type 0} (p : A → Bool) (xs : List A) {x : A}
    → find p xs ≡ some x
    → Memᴰ x xs × (p x ≡ true)
mem_of_find p [] e = absurd (ground arith)
mem_of_find p (y ∷ xs) {x} e = elim (Bool-cases (p y)) [
  | inl h ↦ let same : y ≡ x = ground arith in (Memᴰ.head (sym same), rw (← same) h)
  | inr h ↦ let (m, q) = mem_of_find p xs {x = x} (ground arith) in (Memᴰ.tail m, q)
]

-- The identifier that the pages see is empty, or that of a loaded cluster.
exposed_id-loaded :
    (q : Query) (s : Selection)
    → (exposed_id q s ≡ "") ⊎ ((c : Cluster) × Memᴰ c (loaded q) × (c.id ≡ exposed_id q s))
unfolding exposed_id
exposed_id-loaded q s = elim (Option-cases (selected_cluster q s)) [
  | inl e ↦ inl (rw e refl)
  | inr (c, e) ↦
      let (m, h) =
        mem_of_find (has_id s.cluster_id) (loaded q) {x = c} (unfold selected_cluster in e) in
      inr (c, m, rw e ((eq_iff c.id s.cluster_id).0 h))
]
