-- ===== src/Pages/Clusters/Laws.antt =====
-- What the page of clusters sends.
use mathlib.Core.Path.{subst}
use kafkaesque.Ui.{mutate}
use kafkaesque.Ui.Table.{action, RowAction, clickable}
use kafkaesque.Api.Types.{User, Cluster}
use kafkaesque.Prelude.{
  sym, inr, arith, ◌∷◌, inl, Memᴰ, Option-cases, refl, [], none, false, true, String, ◌≡◌, Option,
}
use kafkaesque.Auth.Guards.{can, permission_guard, guard_allows, any_of, children, fallback}
use kafkaesque.Api.Client.{delete_cluster}
use kafkaesque.Pages.Clusters.{
  RowCommand, view, edit, test, cluster_actions, run, press_remove, confirm_delete, ClustersState,
  ask_delete,
}

guard-children :
    (me : Option User) (p : String) → can me p ≡ true → permission_guard me p none any_of ≡ children
unfolding permission_guard guard_allows
guard-children me p h = rw h refl

guard-fallback :
    (me : Option User) (p : String)
    → can me p ≡ false
    → permission_guard me p none any_of ≡ fallback
unfolding permission_guard guard_allows
guard-fallback me p h = rw h refl

abbrev pub delete_entry : Cluster → RowAction RowCommand
delete_entry c = record (action "Delete" (ask_delete c)) { destructive = true }

press_remove-fallback :
    (me : Option User) (s : ClustersState)
    → can me "cluster.manage" ≡ false
    → press_remove me s ≡ (s, [])
unfolding press_remove
press_remove-fallback me s h = elim (Option-cases s.view_target) [
  | inl e ↦ ground arith
  | inr (c, e) ↦ ground (arith, guard-fallback me "cluster.manage" h)
]

cluster_actions-shown :
    (me : Option User) (c : Cluster)
    → can me "cluster.read" ≡ true
    → cluster_actions me c
      ≡ action "View" (view c)
        ∷ action "Edit" (edit c)
        ∷ action "Test connection" (test c.id)
        ∷ delete_entry c
        ∷ []
unfolding cluster_actions
cluster_actions-shown me c h = rw (guard-children me "cluster.read" h, cluster_actions) refl

-- A user who may read clusters and not manage them is not given the drawer's button to remove one, but
-- is given the entry of the row's menu; to choose and confirm it sends the deletion.
pub reader-deletes :
    (me : Option User) (c : Cluster) (s : ClustersState)
    → can me "cluster.read" ≡ true
    → can me "cluster.manage" ≡ false
    → (press_remove me s ≡ (s, []))
      × Memᴰ (delete_entry c) (cluster_actions me c)
      × ((confirm_delete false (run (delete_entry c).click s).0).1
          ≡ mutate (delete_cluster c.id) ∷ [])
unfolding run confirm_delete clickable
reader-deletes me c s r m = (
  press_remove-fallback me s m,
  subst (Memᴰ (delete_entry c)) (sym (cluster_actions-shown me c r))
      (Memᴰ.tail (Memᴰ.tail (Memᴰ.tail (Memᴰ.head refl)))),
  refl,
)
