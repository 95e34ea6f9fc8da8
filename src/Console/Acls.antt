-- ===== src/Console/Acls.antt =====
-- The page of ACLs in the console.
use kafkaesque.Api.Client.{delete_acl}
use mathlib.Core.Path.{subst}
use kafkaesque.Ui.{Effect}
use kafkaesque.Ui.Table.{clickable, RowAction}
use kafkaesque.Prelude.{
  All-of_one, false, All-of_nil, Bool-cases, [], ◌∙◌, Bool, Option-cases, inr, refl, sym, true,
  List, Memᴰ, arith, inl, none, some, Option, String, ◌≡◌,
}
use kafkaesque.Console.{PageModel}
use kafkaesque.Console.Requests.{
  note, Past, Had, Had-cons, IsJustified, Goes, Goes-idle, Goes-sends, creates_acl, deletes_acl,
}
use kafkaesque.Auth.Guards.Laws.{guard-cases}
use kafkaesque.Auth.Guards.{can}
use kafkaesque.Pages.Acls.{
  run, row_menu, press_delete, close_drawer, confirm_delete, cancel_delete, deleted, submit_create,
  press_create, confirm_broad, close_broad, created, create_failed, set_form, start, AclsState,
  RowCommand, view, nothing, ask_delete,
}
use kafkaesque.Pages.Acls.Laws.{
  Event, on_event, creates-broad, edited, submitted, confirmed, dismissed, create_answered, failed,
}
use kafkaesque.Api.Types.{AclInfo, User}

pub data AclsEvent (me : Option User) : Type 0 where
  on_form : Event → AclsEvent me
  pressed : (a : AclInfo) (act : RowAction RowCommand) → Memᴰ act (row_menu me a) → AclsEvent me
  row_clicked : AclInfo → AclsEvent me
  delete_confirmed : (pending : Bool) → AclsEvent me
  delete_pressed drawer_closed delete_cancelled delete_answered : AclsEvent me

unfoldable pub acls_step :
    (me : Option User) → String → AclsEvent me → AclsState → AclsState × List Effect
acls_step me cluster (on_form e) s = on_event me cluster e s
acls_step me cluster (pressed a act m) s = run act.click s
acls_step me cluster (row_clicked a) s = run (view a) s
acls_step me cluster (delete_confirmed pending) s = confirm_delete cluster pending s
acls_step me cluster delete_pressed s = press_delete me s
acls_step me cluster drawer_closed s = close_drawer s
acls_step me cluster delete_cancelled s = cancel_delete s
acls_step me cluster delete_answered s = deleted cluster s

-- A deletion that is asked about, a user who manages ACLs has asked for.
pub record AclsIsSafe (past : Past) (s : AclsState) : Type 0 where
  pub deleting : (a : AclInfo) → s.delete_target ≡ some a → Had past "acl.manage"

idle_target : (past : Past) (s : AclsState) → s.delete_target ≡ none → AclsIsSafe past s
idle_target past s h = record { deleting = λ a e. absurd (cc) }

-- The form leaves the deletion alone.
submit-target :
    (cluster : String) (s : AclsState) → (submit_create cluster s).0.delete_target ≡ s.delete_target
unfolding submit_create
submit-target cluster s = ground arith

form-target :
    (me : Option User) (cluster : String) (e : Event) (s : AclsState)
    → (on_event me cluster e s).0.delete_target ≡ s.delete_target
unfolding on_event press_create confirm_broad close_broad created create_failed set_form
form-target me cluster (edited a) s = refl
form-target me cluster (submitted pending) s = elim (guard-cases me "acl.manage") [
  | inl (r, g) ↦ ground (arith, submit-target cluster s)
  | inr (r, g) ↦ ground arith
]
form-target me cluster (confirmed pending) s = elim (guard-cases me "acl.manage") [
  | inl (r, g) ↦ ground arith
  | inr (r, g) ↦ ground arith
]
form-target me cluster dismissed s = refl
form-target me cluster create_answered s = refl
form-target me cluster (failed message) s = refl

module _ (me : Option User) (cluster : String) (past : Past) (here : Memᴰ me past.users) where
  abbrev Fine : AclsState × List Effect → Type 0
  Fine = Goes (AclsIsSafe past) past

  form-Goes : (e : Event) (s : AclsState) → AclsIsSafe past s → Fine (on_event me cluster e s)
  form-Goes e s h = (
    record { deleting = λ a q. h.deleting a (sym (form-target me cluster e s) ∙ q) },
    elim (creates-broad me cluster e s) [
      | inl k ↦ All-of_nil (IsJustified past) k
      | inr (k, right, shown) ↦
          All-of_one (IsJustified past) k (creates_acl (me, here, right) cluster s.form)
    ],
  )

  menu-can :
      (a : AclInfo) (act : RowAction RowCommand)
      → Memᴰ act (row_menu me a)
      → can me "acl.manage" ≡ true
  unfolding row_menu
  menu-can a act m = elim (guard-cases me "acl.manage") [
    | inl (e, g) ↦ e
    | inr (e, g) ↦
        let empty : row_menu me a ≡ [] = rw (g, row_menu) refl in
        absurd (elim (subst (Memᴰ act) empty m) [ ])
  ]

  run-Goes :
      (c : RowCommand) (s : AclsState)
      → can me "acl.manage" ≡ true
      → AclsIsSafe past s
      → Fine (run c s)
  unfolding run
  run-Goes (view a) s k h = (record { deleting = h.deleting }, tt)
  run-Goes nothing s k h = (h, tt)
  run-Goes (ask_delete a) s k h = (record { deleting = λ b e. (me, here, k) }, tt)

  press_delete-Goes : (s : AclsState) → AclsIsSafe past s → Fine (press_delete me s)
  unfolding press_delete
  press_delete-Goes s h = elim (Option-cases s.view_acl) [
    | inl v ↦ Goes-idle (AclsIsSafe past) past (press_delete me s) s (ground arith) h
    | inr (a, v) ↦ elim (guard-cases me "acl.manage") [
      | inl (e, g) ↦
          Goes-idle (AclsIsSafe past) past (press_delete me s) (record s { delete_target = some a })
            (ground arith) (record { deleting = λ b q. (me, here, e) })
      | inr (e, g) ↦ Goes-idle (AclsIsSafe past) past (press_delete me s) s (ground arith) h
    ]
  ]

  confirm_delete-Goes :
      (pending : Bool) (s : AclsState) → AclsIsSafe past s → Fine (confirm_delete cluster pending s)
  unfolding confirm_delete
  confirm_delete-Goes pending s h = elim (Option-cases s.delete_target) [
    | inl e ↦ Goes-idle (AclsIsSafe past) past (confirm_delete cluster pending s) s (ground arith) h
    | inr (a, e) ↦ elim (Bool-cases (clickable false pending)) [
      | inl c ↦
          Goes-sends (AclsIsSafe past) past (confirm_delete cluster pending s) s
            (delete_acl cluster a) (ground arith) h (deletes_acl (h.deleting a e) cluster a)
      | inr c ↦
          Goes-idle (AclsIsSafe past) past (confirm_delete cluster pending s) s (ground arith) h
    ]
  ]

  pub acls_step-Goes :
      (e : AclsEvent me) (s : AclsState) → AclsIsSafe past s → Fine (acls_step me cluster e s)
  unfolding acls_step run cancel_delete close_drawer deleted
  acls_step-Goes (on_form e) s h = form-Goes e s h
  acls_step-Goes (pressed a act m) s h = run-Goes act.click s (menu-can a act m) h
  acls_step-Goes (row_clicked a) s h = (record { deleting = h.deleting }, tt)
  acls_step-Goes (delete_confirmed pending) s h = confirm_delete-Goes pending s h
  acls_step-Goes delete_pressed s h = press_delete-Goes s h
  acls_step-Goes drawer_closed s h = (record { deleting = h.deleting }, tt)
  acls_step-Goes delete_cancelled s h = (idle_target past _ refl, tt)
  acls_step-Goes delete_answered s h = (idle_target past _ refl, tt)

pub acls-safe_cons :
    (me : Option User) (past : Past) (s : AclsState)
    → AclsIsSafe past s
    → AclsIsSafe (note me past) s
acls-safe_cons me past s h = record { deleting = λ a e. Had-cons me past _ (h.deleting a e) }

pub start-AclsIsSafe : (past : Past) → AclsIsSafe past start
unfolding start
start-AclsIsSafe past = idle_target past start refl

abbrev pub acls_model : PageModel
acls_model = record {
  State = AclsState;
  start = start;
  Event = λ past me cluster. AclsEvent me;
  step = λ past. acls_step;
  IsSafe = AclsIsSafe;
  start_safe = start-AclsIsSafe;
  safe_cons = acls-safe_cons;
  step_safe = λ me cluster past e s here h. acls_step-Goes me cluster past here e s h;
}
