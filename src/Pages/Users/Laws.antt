-- ===== src/Pages/Users/Laws.antt =====
-- The page of users acts on other accounts, and with the permissions.
use kafkaesque.Pages.Topics.Laws.{typed, pressed}
use kafkaesque.Pages.Users.Safety.{
  refused, row_clicked, cancelled_reset, confirmed_reset, revokes, confirmed_delete, enables,
  deletes, disables, resets, CanDelete, Event, IsAllowed, all_sent, on_event, IsSafe, IsSafeAction,
  IsSafeCommand, pressed, cancelled_delete, answered_delete, answered_disable, answered_enable,
  answered_reset, answered_revoke, add_pressed, add_closed, edit_closed, details_closed, typed,
}
use mathlib.Core.Path.{subst}
use kafkaesque.Pages.Users.{
  press_add, close_add, close_edit, close_details, start, type_password, revoked, was_reset,
  deleted, cancel_delete, cancel_reset, confirm_reset, is_self, UsersState, confirm_delete, press,
  row_actions, run, RowCommand, select, edit, ask_reset, disable, enable, ask_delete, revoke,
  show_audit, failed, disabled, enabled,
}
use kafkaesque.Ui.{sent}
use kafkaesque.Ui.Table.{clickable, RowAction}
use kafkaesque.Api.Types.{User}
use kafkaesque.Prelude.{
  sym, All-append, All-lookup, ltb, inr, [], inl, Bool-cases, Option-cases, if◌then◌else◌, leb,
  or_else, arith, All, false, none, true, ◌∷◌, Bool, List, ◌≡◌, Option,
}
use kafkaesque.Dialogs.AddUser.{text_length}
use kafkaesque.Dialogs.EditUser.{UserRow}
use kafkaesque.Auth.Guards.{can}

module _ (me : Option User) where
  switch-IsSafeCommand :
      (active : Bool) (u : UserRow)
      → (can me "users.disable" ≡ true) × (is_self me u ≡ false)
      → IsSafeCommand me (if active then disable u else enable u)
  unfolding IsSafeCommand
  switch-IsSafeCommand true u h = h
  switch-IsSafeCommand false u h = h

  row_actions-IsSafeAction : (u : UserRow) → All (IsSafeAction me) (row_actions me u)
  unfolding row_actions IsSafeAction IsSafeCommand CanDelete
  row_actions-IsSafeAction u = (
    (λ h. tt),
    (
      (λ h. tt),
      (
        (λ h. ground arith),
        (
          (λ h. switch-IsSafeCommand (or_else u.is_active false) u (ground arith, ground arith)),
          ((λ h. (ground arith, ground arith)), ((λ h. ground arith), ((λ h. tt), tt))),
        ),
      ),
    ),
  )

  run-IsSafe :
      (c : RowCommand) (s : UsersState)
      → IsSafeCommand me c
      → IsSafe me s
      → IsSafe me (run c s).0 × All (IsAllowed me) (sent (run c s).1)
  unfolding run IsSafe IsSafeCommand
  run-IsSafe (select u) s k h = (h, tt)
  run-IsSafe (edit u) s k h = (h, tt)
  run-IsSafe show_audit s k h = (h, tt)
  run-IsSafe (ask_reset u) s k h = ((h.0, λ v e. k), tt)
  run-IsSafe (ask_delete u) s k h =
      ((λ v e. let q : u ≡ v = cc in subst (CanDelete me) q k, h.1), tt)
  run-IsSafe (disable u) s k h = (h, (disables u k.0 k.1, tt))
  run-IsSafe (enable u) s k h = (h, (enables u k.0 k.1, tt))
  run-IsSafe (revoke u) s k h = (h, (revokes u k, tt))

  press-IsSafe :
      (a : RowAction RowCommand) (s : UsersState)
      → IsSafeAction me a
      → IsSafe me s
      → IsSafe me (press a (none, s)).0.1 × All (IsAllowed me) (sent (press a (none, s)).1)
  unfolding press IsSafeAction
  press-IsSafe a s k h = elim (Bool-cases a.disabled) [
    | inl e ↦ rw e (h, tt)
    | inr e ↦ rw e (run-IsSafe a.click s (k e) h)
  ]

  confirm_delete-state : (pending : Bool) (s : UsersState) → (confirm_delete pending s).0 ≡ s
  unfolding confirm_delete
  confirm_delete-state pending s = elim (Option-cases s.delete_target) [
    | inl e ↦ ground arith
    | inr (u, e) ↦ ground arith
  ]

  confirm_reset-state : (pending : Bool) (s : UsersState) → (confirm_reset pending s).0 ≡ s
  unfolding confirm_reset
  confirm_reset-state pending s = elim (Option-cases s.reset_target) [
    | inl e ↦ ground arith
    | inr (u, e) ↦ ground arith
  ]

  cancel_reset-IsSafe :
      (pending : Bool) (s : UsersState)
      → IsSafe me s
      → IsSafe me (cancel_reset pending s).0 × All (IsAllowed me) (sent (cancel_reset pending s).1)
  unfolding cancel_reset IsSafe
  cancel_reset-IsSafe true s h = (h, tt)
  cancel_reset-IsSafe false s h = ((h.0, λ u e. absurd (cc)), tt)

  press_add-IsSafe :
      (s : UsersState)
      → IsSafe me s
      → IsSafe me (press_add me s).0 × All (IsAllowed me) (sent (press_add me s).1)
  unfolding press_add IsSafe
  press_add-IsSafe s h = elim (Bool-cases (can me "users.create")) [
    | inl e ↦ rw e (h, tt)
    | inr e ↦ rw e (h, tt)
  ]

  confirm_delete-IsAllowed :
      (pending : Bool) (s : UsersState)
      → IsSafe me s
      → All (IsAllowed me) (sent (confirm_delete pending s).1)
  unfolding confirm_delete IsSafe CanDelete
  confirm_delete-IsAllowed pending s h = elim (Option-cases s.delete_target) [
    | inl e ↦ rw e tt
    | inr (u, e) ↦ elim (Bool-cases (clickable false pending)) [
      | inl c ↦ rw e (rw c (deletes u (h.0 u e).0 (h.0 u e).1, tt))
      | inr c ↦ rw e (rw c tt)
    ]
  ]

  confirm_reset-IsAllowed :
      (pending : Bool) (s : UsersState)
      → IsSafe me s
      → All (IsAllowed me) (sent (confirm_reset pending s).1)
  unfolding confirm_reset IsSafe
  confirm_reset-IsAllowed pending s h = elim (Option-cases s.reset_target) [
    | inl e ↦ rw e tt
    | inr (u, e) ↦ elim (Bool-cases (leb 6 (text_length s.new_password))) [
      | inl long ↦ elim (Bool-cases (clickable (ltb (text_length s.new_password) 6) pending)) [
        | inl c ↦ rw e (rw c (rw long (resets u s.new_password (h.1 u e) long, tt)))
        | inr c ↦ rw e (rw c tt)
      ]
      | inr short ↦ elim (Bool-cases (clickable (ltb (text_length s.new_password) 6) pending)) [
        | inl c ↦ rw e (rw c (rw short tt))
        | inr c ↦ rw e (rw c tt)
      ]
    ]
  ]

  on_event-IsSafe :
      (e : Event me) (s : UsersState)
      → IsSafe me s
      → IsSafe me (on_event me e s).0 × All (IsAllowed me) (sent (on_event me e s).1)
  unfolding on_event IsSafe deleted close_add close_edit close_details IsSafeCommand disabled
      enabled was_reset revoked failed type_password cancel_delete cancel_reset
  on_event-IsSafe (pressed u a m) s h =
      press-IsSafe a s (All-lookup (IsSafeAction me) _ (row_actions-IsSafeAction u) m) h
  on_event-IsSafe (confirmed_delete pending) s h = (
    subst (IsSafe me) (sym (confirm_delete-state pending s)) h,
    confirm_delete-IsAllowed pending s h,
  )
  on_event-IsSafe (confirmed_reset pending) s h = (
    subst (IsSafe me) (sym (confirm_reset-state pending s)) h,
    confirm_reset-IsAllowed pending s h,
  )
  on_event-IsSafe (cancelled_reset pending) s h = cancel_reset-IsSafe pending s h
  on_event-IsSafe cancelled_delete s h = (((λ u e. absurd (cc)), h.1), tt)
  on_event-IsSafe answered_delete s h = (((λ u e. absurd (cc)), h.1), tt)
  on_event-IsSafe answered_disable s h = (h, tt)
  on_event-IsSafe answered_enable s h = (h, tt)
  on_event-IsSafe answered_reset s h = ((h.0, λ u e. absurd (cc)), tt)
  on_event-IsSafe answered_revoke s h = (h, tt)
  on_event-IsSafe add_pressed s h = press_add-IsSafe s h
  on_event-IsSafe add_closed s h = (h, tt)
  on_event-IsSafe edit_closed s h = (h, tt)
  on_event-IsSafe details_closed s h = (h, tt)
  on_event-IsSafe (row_clicked u) s h = run-IsSafe (select u) s tt h
  on_event-IsSafe (typed text) s h = (h, tt)
  on_event-IsSafe (refused message) s h = (h, tt)

  all_sent-IsAllowed' :
      (es : List (Event me)) (s : UsersState) → IsSafe me s → All (IsAllowed me) (all_sent me es s)
  unfolding all_sent
  all_sent-IsAllowed' [] s h = tt
  all_sent-IsAllowed' (e ∷ es) s h =
      let (safe, now) = on_event-IsSafe e s h in
      All-append (IsAllowed me) _ _ now (all_sent-IsAllowed' es _ safe)

-- Whatever the user does on the page of users, and whatever the server answers, a request that is sent
-- to delete, disable or enable an account is about another user's account than the own one, and each
-- request to delete, disable, enable, reset a password or revoke sessions is sent only with its
-- permission; nothing else is sent, and a new password has at least 6 characters.
pub all_sent-IsAllowed :
    (me : Option User) (es : List (Event me)) → All (IsAllowed me) (all_sent me es start)
unfolding IsSafe
all_sent-IsAllowed me es =
    all_sent-IsAllowed' me es start ((λ u e. absurd (cc)), (λ u e. absurd (cc)))
