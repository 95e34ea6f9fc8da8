-- ===== src/Console/Roles.antt =====
-- The page of roles in the console, with the editor that it opens.
use kafkaesque.Api.Client.{delete_role}
use mathlib.Core.Path.{subst}
use kafkaesque.Prelude.Texts.{trim, is_blank}
use kafkaesque.Auth.Guards.{can}
use kafkaesque.Ui.Table.{clickable}
use kafkaesque.Ui.{Effect, sent}
use kafkaesque.Api.Types.{User, RoleRecord}
use kafkaesque.Prelude.{
  refl, sym, not, [], arith, false, inr, if◌then◌else◌, inl, ◌&&◌, Bool-cases, Option-cases, true,
  List, Memᴰ, none, All, some, ◌≡◌, Bool, Option,
}
use kafkaesque.Console.{PageModel}
use kafkaesque.Console.Requests.{
  note, Past, Had, Had-cons, IsJustified, Goes, Goes-idle, Goes-sends, removes_role, creates_role,
  updates_role,
}
use kafkaesque.Pages.Roles.{
  failed, deleted, cancel_delete, close_editor, open_create, press_create, press_edit, press_delete,
  confirm_delete, start, RolesState, card_buttons,
}
use kafkaesque.Pages.Roles.Laws.{
  Event, on_event, IsRemovable, create_pressed, closed, cancelled, answered, edit_pressed,
  delete_pressed, confirmed, refused,
}
use kafkaesque.Dialogs.RoleEditor
use kafkaesque.Auth.Guards.Laws.{guard-cases}

pub data RolesEvent (me : Option User) (listed : List RoleRecord) : Type 0 where
  on_roles : Event me listed → RolesEvent me listed
  role_saved : (pending : Bool) → RoleEditor.RoleEditor → RolesEvent me listed

-- The editor is there while it is open, for the role that was chosen, or for a new one.
unfoldable pub roles_step :
    (me : Option User) (listed : List RoleRecord)
    → RolesEvent me listed
    → RolesState
    → RolesState × List Effect
roles_step me listed (on_roles e) s = on_event me listed e s
roles_step me listed (role_saved pending f) s =
    if s.editor_open then (s, (RoleEditor.press_save s.editor_role pending f).1) else (s, [])

abbrev MayEdit : Past → Option RoleRecord → Type 0
MayEdit past none = Had past "roles.create"
MayEdit past (some r) = Had past "roles.update"

pub record RolesIsSafe (past : Past) (s : RolesState) : Type 0 where
  pub deleting :
      (r : RoleRecord)
      → s.delete_target ≡ some r
      → Memᴰ r past.roles × ((me : Option User) × Memᴰ me past.users × IsRemovable me past.roles r)
  pub editing : s.editor_open ≡ true → MayEdit past s.editor_role

module _ (me : Option User) (past : Past) (here : Memᴰ me past.users) where
  press_create-Goes :
      (s : RolesState) → RolesIsSafe past s → Goes (RolesIsSafe past) past (press_create me s)
  unfolding press_create open_create
  press_create-Goes s h = elim (guard-cases me "roles.create") [
    | inl (e, g) ↦
        let opens : press_create me s ≡ (record s { editor_role = none; editor_open = true }, []) =
          ground arith in
        Goes-idle (RolesIsSafe past) past (press_create me s) _ opens
          (record { deleting = h.deleting; editing = λ o. (me, here, e) })
    | inr (e, g) ↦ Goes-idle (RolesIsSafe past) past (press_create me s) s (ground arith) h
  ]

  press_edit-Goes :
      (r : RoleRecord) (s : RolesState)
      → RolesIsSafe past s
      → Goes (RolesIsSafe past) past (press_edit me r s)
  unfolding press_edit card_buttons
  press_edit-Goes r s h = elim (Bool-cases (can me "roles.update")) [
    | inl e ↦ rw e (record { deleting = h.deleting; editing = λ o. (me, here, e) }, tt)
    | inr e ↦ rw e (h, tt)
  ]

  press_delete-Goes :
      (r : RoleRecord) (s : RolesState)
      → Memᴰ r past.roles
      → RolesIsSafe past s
      → Goes (RolesIsSafe past) past (press_delete me r s)
  unfolding press_delete card_buttons clickable
  press_delete-Goes r s k h =
      let b = card_buttons me r in
      elim (Bool-cases (b.delete_shown && clickable b.delete_disabled false)) [
        | inl c ↦ rw c (
          record {
            deleting = λ t e.
                let q : r ≡ t = cc in
                subst
                  (λ x.
                    Memᴰ x past.roles
                    × ((you : Option User) × Memᴰ you past.users × IsRemovable you past.roles x))
                  q (k, (me, here, (ground arith, ground arith, ground arith)));
            editing = h.editing;
          },
          tt,
        )
        | inr c ↦ rw c (h, tt)
      ]

  confirm_delete-Goes :
      (pending : Bool) (s : RolesState)
      → RolesIsSafe past s
      → Goes (RolesIsSafe past) past (confirm_delete pending s)
  unfolding confirm_delete
  confirm_delete-Goes pending s h = elim (Option-cases s.delete_target) [
    | inl e ↦ Goes-idle (RolesIsSafe past) past (confirm_delete pending s) s (ground arith) h
    | inr (r, e) ↦ elim (Bool-cases (clickable false pending)) [
      | inl c ↦
          let (l, (you, m, k)) = h.deleting r e in
          Goes-sends (RolesIsSafe past) past (confirm_delete pending s) s (delete_role r.id)
            (ground arith) h (removes_role you m (r, l, refl, k))
      | inr c ↦ Goes-idle (RolesIsSafe past) past (confirm_delete pending s) s (ground arith) h
    ]
  ]

  on_event-Goes :
      (e : Event me past.roles) (s : RolesState)
      → RolesIsSafe past s
      → Goes (RolesIsSafe past) past (on_event me past.roles e s)
  unfolding on_event close_editor cancel_delete deleted failed
  on_event-Goes create_pressed s h = press_create-Goes s h
  on_event-Goes closed s h = (record { deleting = h.deleting; editing = λ e. absurd (cc) }, tt)
  on_event-Goes cancelled s h = (record { deleting = λ r e. absurd (cc); editing = h.editing }, tt)
  on_event-Goes answered s h = (record { deleting = λ r e. absurd (cc); editing = h.editing }, tt)
  on_event-Goes (edit_pressed r k) s h = press_edit-Goes r s h
  on_event-Goes (delete_pressed r k) s h = press_delete-Goes r s k h
  on_event-Goes (confirmed pending) s h = confirm_delete-Goes pending s h
  on_event-Goes (refused message) s h = (h, tt)

edits :
    (past : Past) (o : Option RoleRecord) (f : RoleEditor.RoleEditor)
    → MayEdit past o
    → IsJustified past (RoleEditor.request o f)
edits past none f had = creates_role had f
edits past (some r) f had = updates_role had r f

save-sent :
    (past : Past) (pending : Bool) (o : Option RoleRecord) (f : RoleEditor.RoleEditor)
    → MayEdit past o
    → All (IsJustified past) (sent (RoleEditor.press_save o pending f).1)
unfolding RoleEditor.press_save
save-sent past pending o f had =
    elim (Bool-cases (clickable (is_blank (trim f.name)) pending && not (is_blank (trim f.name)))) [
      | inl c ↦ rw c (edits past o f had, tt)
      | inr c ↦ rw c tt
    ]

pub roles_step-Goes :
    (me : Option User) (past : Past) (e : RolesEvent me past.roles) (s : RolesState)
    → Memᴰ me past.users
    → RolesIsSafe past s
    → Goes (RolesIsSafe past) past (roles_step me past.roles e s)
unfolding roles_step
roles_step-Goes me past (on_roles e) s here h = on_event-Goes me past here e s h
roles_step-Goes me past (role_saved pending f) s here h = elim (Bool-cases s.editor_open) [
  | inl o ↦
      let sends : roles_step me past.roles (role_saved pending f) s
          ≡ (s, (RoleEditor.press_save s.editor_role pending f).1) =
        ground arith in
      subst (Goes (RolesIsSafe past) past) (sym sends)
        (h, save-sent past pending s.editor_role f (h.editing o))
  | inr o ↦
      Goes-idle (RolesIsSafe past) past (roles_step me past.roles (role_saved pending f) s) s
        (ground arith) h
]

MayEdit-cons :
    (me : Option User) (past : Past) (o : Option RoleRecord)
    → MayEdit past o
    → MayEdit (note me past) o
MayEdit-cons me past none h = Had-cons me past _ h
MayEdit-cons me past (some r) h = Had-cons me past _ h

pub roles-safe_cons :
    (me : Option User) (past : Past) (s : RolesState)
    → RolesIsSafe past s
    → RolesIsSafe (note me past) s
roles-safe_cons me past s h = record {
  deleting = λ r e. let (l, (you, m, k)) = h.deleting r e in (l, (you, Memᴰ.tail m, k));
  editing = λ e. MayEdit-cons me past s.editor_role (h.editing e);
}

pub start-RolesIsSafe : (past : Past) → RolesIsSafe past start
start-RolesIsSafe past = record { deleting = λ r e. absurd (cc); editing = λ e. absurd (cc) }

abbrev pub roles_model : PageModel
roles_model = record {
  State = RolesState;
  start = start;
  Event = λ past me cluster. RolesEvent me past.roles;
  step = λ past me cluster. roles_step me past.roles;
  IsSafe = RolesIsSafe;
  start_safe = start-RolesIsSafe;
  safe_cons = roles-safe_cons;
  step_safe = λ me cluster past e s. roles_step-Goes me past e s;
}
