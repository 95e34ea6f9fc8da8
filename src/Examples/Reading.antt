-- ===== src/Examples/Reading.antt =====
-- What the components read, at concrete clusters.
use kafkaesque.Prelude.{
  Bool, true, false, ◌&&◌, ◌==◌, eq_refl, ◌≡◌, refl, List, [], ◌∷◌, ◌++◌, map, String,
}
use kafkaesque.Queries.{Key, text, absent, filters}
use kafkaesque.Queries.Sites.{Site, read, about}
use kafkaesque.Queries.Keys as QueryKeys
use kafkaesque.Queries.Reads as QueryReads
use kafkaesque.Queries.Reads.{Runs}
use kafkaesque.Queries.Refresh.{acls_of, Success, effects, refreshes}
use kafkaesque.Queries.Refresh.Laws as RefreshLaws
use kafkaesque.Pages.Acls
use kafkaesque.Queries.Shell.{produce_query}
use kafkaesque.Queries.Resources.{topics_query}

-- The documented matching of keys.
begins : List String → List Key → Bool
begins [] key = true
begins (k ∷ ks) [] = false
begins (k ∷ ks) (text t ∷ key) = k == t && begins ks key
begins (k ∷ ks) (absent ∷ key) = false
begins (k ∷ ks) (filters a b ∷ key) = false

begins_prefix : (ks : List String) (rest : List Key) → begins ks (map text ks ++ rest) ≡ true
unfolding begins
begins_prefix [] rest = refl
begins_prefix (k ∷ ks) rest = rw (eq_refl k) (begins_prefix ks rest)

-- The page of topics and the dialog to produce a message share the answer.
fetch_of_key_example :
    (read (Site.topics_page "c1")).fetch ≡ (read (Site.produce_dialog true "c1")).fetch
unfolding topics_query produce_query
fetch_of_key_example =
    QueryKeys.fetch_of_key (Site.topics_page "c1") (Site.produce_dialog true "c1") refl

enabled-Runs_example :
    Runs (about (Site.produce_dialog true "c1")) (read (Site.produce_dialog true "c1")).fetch
unfolding produce_query
enabled-Runs_example = QueryReads.enabled-Runs (Site.produce_dialog true "c1") refl

-- The deletion of an ACL has the filtered list read again.
abbrev filtered_acls : Acls.AclsState
filtered_acls = record Acls.start { resource_type_filter = "TOPIC" }

success-refreshes_example :
    refreshes begins
      ("acls" ∷ "c1" ∷ [])
      (effects (Success.acl_deleted "c1" filtered_acls))
      (read (Site.acls_page "c1" filtered_acls)).key
    ≡ true
success-refreshes_example =
    RefreshLaws.success-refreshes begins begins_prefix (Success.acl_deleted "c1" filtered_acls)
      (acls_of "c1") (Site.acls_page "c1" filtered_acls) refl refl
