-- ===== src/Console/Clusters.antt =====
-- The page of clusters in the console.
use kafkaesque.Api.Client.{delete_cluster, test_cluster}
use mathlib.Core.Path.{subst}
use kafkaesque.Ui.{open_add_cluster, dialog, Effect}
use kafkaesque.Ui.Table.{clickable, RowAction}
use kafkaesque.Prelude.{
  sym, false, [], Bool-cases, arith, inr, Bool, Option-cases, String, inl, refl, true, List, Memᴰ,
  none, some, ◌∷◌, Option, ◌≡◌, ◌⊎◌,
}
use kafkaesque.Console.{PageModel}
use kafkaesque.Console.Requests.{
  note, Past, Had, Had-cons, Goes, Goes-idle, Goes-sends, deletes_cluster, tests_cluster,
}
use kafkaesque.Pages.Clusters.{
  is_viewed, failed, run, press_add, press_test, press_remove, confirm_delete, cancel_delete,
  close_drawer, deleted, tested, start, ClustersState, RowCommand, view, edit, ask_delete, test,
  cluster_actions,
}
use kafkaesque.Api.Types.{Cluster, TestConnectionResult, User}
use kafkaesque.Auth.Guards.Laws.{guard-cases}
use kafkaesque.Auth.Guards.{can}

-- What the user and the server do to the page. An entry of a menu comes from a row.
pub data Event (me : Option User) : Type 0 where
  pressed : (c : Cluster) (a : RowAction RowCommand) → Memᴰ a (cluster_actions me c) → Event me
  row_clicked : Cluster → Event me
  add_pressed remove_pressed drawer_closed cancelled delete_answered : Event me
  test_pressed confirmed : (pending : Bool) → Event me
  test_answered : TestConnectionResult → String → Event me
  refused : String → Event me

unfoldable pub on_event :
    (me : Option User) → Event me → ClustersState → ClustersState × List Effect
on_event me (pressed c a m) s = run a.click s
on_event me (row_clicked c) s = run (view c) s
on_event me add_pressed s = press_add me s
on_event me remove_pressed s = press_remove me s
on_event me drawer_closed s = close_drawer s
on_event me cancelled s = cancel_delete s
on_event me delete_answered s = deleted s
on_event me (test_pressed pending) s = press_test me pending s
on_event me (confirmed pending) s = confirm_delete pending s
on_event me (test_answered r id) s = tested r id s
on_event me (refused message) s = failed message s

-- The menu of a row asks for the right to read, the button of the drawer for that to manage.
abbrev MayDelete : Past → Type 0
MayDelete past = Had past "cluster.read" ⊎ Had past "cluster.manage"

pub record ClustersIsSafe (past : Past) (s : ClustersState) : Type 0 where
  pub deleting : (c : Cluster) → s.delete_target ≡ some c → MayDelete past

idle_target : (past : Past) (s : ClustersState) → s.delete_target ≡ none → ClustersIsSafe past s
idle_target past s h = record { deleting = λ c e. absurd (cc) }

module _ (me : Option User) (past : Past) (here : Memᴰ me past.users) where
  abbrev Fine : ClustersState × List Effect → Type 0
  Fine = Goes (ClustersIsSafe past) past

  run-Goes :
      (c : RowCommand) (s : ClustersState)
      → can me "cluster.read" ≡ true
      → ClustersIsSafe past s
      → Fine (run c s)
  unfolding run
  run-Goes (view c) s k h = (record { deleting = h.deleting }, tt)
  run-Goes (edit c) s k h = (record { deleting = h.deleting }, tt)
  run-Goes (ask_delete c) s k h = (record { deleting = λ d e. inl (me, here, k) }, tt)
  run-Goes (test id) s k h = (h, (tests_cluster (me, here, k) id, tt))

  menu-can :
      (c : Cluster) (a : RowAction RowCommand)
      → Memᴰ a (cluster_actions me c)
      → can me "cluster.read" ≡ true
  unfolding cluster_actions
  menu-can c a m = elim (guard-cases me "cluster.read") [
    | inl (e, g) ↦ e
    | inr (e, g) ↦
        let empty : cluster_actions me c ≡ [] = rw (g, cluster_actions) refl in
        absurd (elim (subst (Memᴰ a) empty m) [ ])
  ]

  press_add-Goes : (s : ClustersState) → ClustersIsSafe past s → Fine (press_add me s)
  unfolding press_add
  press_add-Goes s h = elim (guard-cases me "cluster.manage") [
    | inl (e, g) ↦
        let opens : press_add me s ≡ (s, dialog open_add_cluster ∷ []) = ground arith in
        subst Fine (sym opens) (h, tt)
    | inr (e, g) ↦ Goes-idle (ClustersIsSafe past) past (press_add me s) s (ground arith) h
  ]

  press_test-Goes :
      (pending : Bool) (s : ClustersState) → ClustersIsSafe past s → Fine (press_test me pending s)
  unfolding press_test
  press_test-Goes pending s h = elim (Option-cases s.view_target) [
    | inl v ↦ Goes-idle (ClustersIsSafe past) past (press_test me pending s) s (ground arith) h
    | inr (k, v) ↦ elim (guard-cases me "cluster.read") [
      | inl (e, g) ↦ elim (Bool-cases (clickable false pending)) [
        | inl c ↦
            Goes-sends (ClustersIsSafe past) past (press_test me pending s) s (test_cluster k.id)
              (ground arith) h (tests_cluster (me, here, e) k.id)
        | inr c ↦ Goes-idle (ClustersIsSafe past) past (press_test me pending s) s (ground arith) h
      ]
      | inr (e, g) ↦
          Goes-idle (ClustersIsSafe past) past (press_test me pending s) s (ground arith) h
    ]
  ]

  press_remove-Goes : (s : ClustersState) → ClustersIsSafe past s → Fine (press_remove me s)
  unfolding press_remove
  press_remove-Goes s h = elim (Option-cases s.view_target) [
    | inl v ↦ Goes-idle (ClustersIsSafe past) past (press_remove me s) s (ground arith) h
    | inr (k, v) ↦ elim (guard-cases me "cluster.manage") [
      | inl (e, g) ↦
          Goes-idle (ClustersIsSafe past) past (press_remove me s)
            (record s { delete_target = some k }) (ground arith)
            (record { deleting = λ d q. inr (me, here, e) })
      | inr (e, g) ↦ Goes-idle (ClustersIsSafe past) past (press_remove me s) s (ground arith) h
    ]
  ]

  confirm_delete-Goes :
      (pending : Bool) (s : ClustersState) → ClustersIsSafe past s → Fine (confirm_delete pending s)
  unfolding confirm_delete
  confirm_delete-Goes pending s h = elim (Option-cases s.delete_target) [
    | inl e ↦ Goes-idle (ClustersIsSafe past) past (confirm_delete pending s) s (ground arith) h
    | inr (k, e) ↦ elim (Bool-cases (clickable false pending)) [
      | inl c ↦
          Goes-sends (ClustersIsSafe past) past (confirm_delete pending s) s (delete_cluster k.id)
            (ground arith) h (deletes_cluster (h.deleting k e) k.id)
      | inr c ↦ Goes-idle (ClustersIsSafe past) past (confirm_delete pending s) s (ground arith) h
    ]
  ]

  -- The answer to a test reports, and has the clusters read again.
  tested-Goes :
      (r : TestConnectionResult) (id : String) (s : ClustersState)
      → ClustersIsSafe past s
      → Fine (tested r id s)
  unfolding tested
  tested-Goes r id s h = elim (Bool-cases (is_viewed id s)) [
    | inl v ↦ elim (Bool-cases r.connected) [
      | inl c ↦ rw (v, c) (h, tt)
      | inr c ↦ rw (v, c) (h, tt)
    ]
    | inr v ↦ elim (Bool-cases r.connected) [
      | inl c ↦ rw (v, c) (h, tt)
      | inr c ↦ rw (v, c) (h, tt)
    ]
  ]

  pub clusters_step-Goes :
      (e : Event me) (s : ClustersState) → ClustersIsSafe past s → Fine (on_event me e s)
  unfolding on_event run cancel_delete close_drawer deleted failed
  clusters_step-Goes (pressed c a m) s h = run-Goes a.click s (menu-can c a m) h
  clusters_step-Goes (row_clicked c) s h = (record { deleting = h.deleting }, tt)
  clusters_step-Goes add_pressed s h = press_add-Goes s h
  clusters_step-Goes remove_pressed s h = press_remove-Goes s h
  clusters_step-Goes drawer_closed s h = (record { deleting = h.deleting }, tt)
  clusters_step-Goes cancelled s h = (idle_target past _ refl, tt)
  clusters_step-Goes delete_answered s h = (idle_target past _ refl, tt)
  clusters_step-Goes (test_pressed pending) s h = press_test-Goes pending s h
  clusters_step-Goes (confirmed pending) s h = confirm_delete-Goes pending s h
  clusters_step-Goes (test_answered r id) s h = tested-Goes r id s h
  clusters_step-Goes (refused message) s h = (h, tt)

MayDelete-cons : (me : Option User) (past : Past) → MayDelete past → MayDelete (note me past)
MayDelete-cons me past (inl h) = inl (Had-cons me past _ h)
MayDelete-cons me past (inr h) = inr (Had-cons me past _ h)

pub clusters-safe_cons :
    (me : Option User) (past : Past) (s : ClustersState)
    → ClustersIsSafe past s
    → ClustersIsSafe (note me past) s
clusters-safe_cons me past s h = record {
  deleting = λ c e. MayDelete-cons me past (h.deleting c e);
}

pub start-ClustersIsSafe : (past : Past) → ClustersIsSafe past start
start-ClustersIsSafe past = idle_target past start refl

abbrev pub clusters_model : PageModel
clusters_model = record {
  State = ClustersState;
  start = start;
  Event = λ past me cluster. Event me;
  step = λ past me cluster. on_event me;
  IsSafe = ClustersIsSafe;
  start_safe = start-ClustersIsSafe;
  safe_cons = clusters-safe_cons;
  step_safe = λ me cluster past e s here h. clusters_step-Goes me past here e s h;
}
