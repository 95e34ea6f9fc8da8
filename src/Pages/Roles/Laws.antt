-- ===== src/Pages/Roles/Laws.antt =====
-- Which roles the page of roles deletes.
use mathlib.Core.Path.{subst}
use kafkaesque.Ui.{Effect, sent}
use kafkaesque.Ui.Table.{clickable}
use kafkaesque.Api.Transport.{Request}
use kafkaesque.Api.Types.{RoleRecord, User}
use kafkaesque.Prelude.{
  none, refl, sym, Option-cases, arith, inr, or_else, [], false, inl, ◌&&◌, All-append, Bool-cases,
  String, some, true, ◌++◌, Bool, ◌∷◌, ◌≡◌, All, List, Option, Memᴰ,
}
use kafkaesque.Api.Client.{delete_role}
use kafkaesque.Auth.Guards.{any_of, can, children, fallback, permission_guard}
use kafkaesque.Pages.Roles.{
  card_buttons, open_create, press_create, press_edit, close_editor, press_delete, confirm_delete,
  cancel_delete, deleted, failed, start, RolesState,
}

-- `listed` has the roles that the server listed at some time; the buttons of a card are about one of them.
module _ (me : Option User) (listed : List RoleRecord) where
  pub data Event : Type 0 where
    create_pressed closed cancelled answered : Event
    edit_pressed delete_pressed : (role : RoleRecord) → Memᴰ role listed → Event
    confirmed : Bool → Event
    refused : String → Event

  unfoldable pub on_event : Event → RolesState → RolesState × List Effect
  on_event create_pressed s = press_create me s
  on_event closed s = close_editor s
  on_event cancelled s = cancel_delete s
  on_event answered s = deleted s
  on_event (edit_pressed role k) s = press_edit me role s
  on_event (delete_pressed role k) s = press_delete me role s
  on_event (confirmed pending) s = confirm_delete pending s
  on_event (refused message) s = failed message s

  unfoldable pub all_sent : List Event → RolesState → List Request
  all_sent [] s = []
  all_sent (e ∷ es) s = let (t, fs) = on_event e s in sent fs ++ all_sent es t

  -- A role of nobody that is not the system's, for a user who may delete roles.
  abbrev pub IsRemovable : RoleRecord → Type 0
  IsRemovable role =
      (can me "roles.delete" ≡ true) × (role.is_system ≡ false) × (or_else role.user_count 0 ≡ 0)

  abbrev pub Removes : Request → Type 0
  Removes r = (role : RoleRecord) × Memᴰ role listed × (r ≡ delete_role role.id) × IsRemovable role

  TargetIsRemovable : RolesState → Type 0
  TargetIsRemovable s =
      (role : RoleRecord) → s.delete_target ≡ some role → Memᴰ role listed × IsRemovable role

  press_delete-TargetIsRemovable :
      (role : RoleRecord) (s : RolesState)
      → Memᴰ role listed
      → TargetIsRemovable s
      → TargetIsRemovable (press_delete me role s).0 × All Removes (sent (press_delete me role s).1)
  unfolding press_delete TargetIsRemovable card_buttons clickable
  press_delete-TargetIsRemovable role s k h =
      let b = card_buttons me role in
      elim (Bool-cases (b.delete_shown && clickable b.delete_disabled false)) [
        | inl c ↦ rw c (
          (λ r e.
              let q : role ≡ r = cc in
              subst (λ x. Memᴰ x listed × IsRemovable x) q
                (k, (ground arith, ground arith, ground arith))),
          tt,
        )
        | inr c ↦ rw c (h, tt)
      ]

  press_create-TargetIsRemovable :
      (s : RolesState)
      → TargetIsRemovable s
      → TargetIsRemovable (press_create me s).0 × All Removes (sent (press_create me s).1)
  unfolding press_create open_create TargetIsRemovable
  press_create-TargetIsRemovable s h =
      elim (permission_guard me "roles.create" none any_of)
        as (λ g.
          let t : RolesState × List Effect = elim g [
            | children ↦ open_create s
            | fallback ↦ (s, [])
          ] in
          TargetIsRemovable t.0 × All Removes (sent t.1)) [
            | children ↦ (h, tt)
            | fallback ↦ (h, tt)
          ]

  confirm_delete-state : (pending : Bool) (s : RolesState) → (confirm_delete pending s).0 ≡ s
  unfolding confirm_delete
  confirm_delete-state pending s = elim (Option-cases s.delete_target) [
    | inl e ↦ ground arith
    | inr (role, e) ↦ ground arith
  ]

  confirm_delete-Removes :
      (pending : Bool) (s : RolesState)
      → TargetIsRemovable s
      → All Removes (sent (confirm_delete pending s).1)
  unfolding confirm_delete TargetIsRemovable
  confirm_delete-Removes pending s h = elim (Option-cases s.delete_target) [
    | inl e ↦ rw e tt
    | inr (role, e) ↦ elim (Bool-cases (clickable false pending)) [
      | inl c ↦ rw e (rw c ((role, (h role e).0, refl, (h role e).1), tt))
      | inr c ↦ rw e (rw c tt)
    ]
  ]

  on_event-TargetIsRemovable :
      (e : Event) (s : RolesState)
      → TargetIsRemovable s
      → TargetIsRemovable (on_event e s).0 × All Removes (sent (on_event e s).1)
  unfolding on_event open_create press_edit close_editor cancel_delete deleted failed confirm_delete
      TargetIsRemovable
  on_event-TargetIsRemovable create_pressed s h = press_create-TargetIsRemovable s h
  on_event-TargetIsRemovable closed s h = (h, tt)
  on_event-TargetIsRemovable cancelled s h = ((λ r e. absurd (cc)), tt)
  on_event-TargetIsRemovable answered s h = ((λ r e. absurd (cc)), tt)
  on_event-TargetIsRemovable (edit_pressed role k) s h =
      elim (Bool-cases (card_buttons me role).edit_shown) [
        | inl c ↦ rw c (h, tt)
        | inr c ↦ rw c (h, tt)
      ]
  on_event-TargetIsRemovable (delete_pressed role k) s h = press_delete-TargetIsRemovable role s k h
  on_event-TargetIsRemovable (confirmed pending) s h = (
    subst TargetIsRemovable (sym (confirm_delete-state pending s)) h,
    confirm_delete-Removes pending s h,
  )
  on_event-TargetIsRemovable (refused message) s h = (h, tt)

  all_sent-Removes :
      (es : List Event) (s : RolesState) → TargetIsRemovable s → All Removes (all_sent es s)
  unfolding all_sent
  all_sent-Removes [] s h = tt
  all_sent-Removes (e ∷ es) s h =
      let (safe, now) = on_event-TargetIsRemovable e s h in
      All-append Removes _ _ now (all_sent-Removes es _ safe)

-- Whatever the user does on the page of roles, and whatever the server answers, the page itself sends
-- only requests to delete a role that the server listed, and listed as not the system's and without users,
-- and only for a user who may delete roles.
pub all_sent-removable :
    (me : Option User) (listed : List RoleRecord) (es : List (Event me listed))
    → All (Removes me listed) (all_sent me listed es start)
unfolding TargetIsRemovable
all_sent-removable me listed es = all_sent-Removes me listed es start (λ r e. absurd (cc))
