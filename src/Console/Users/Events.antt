-- ===== src/Console/Users/Events.antt =====
-- The handlers of the page of users keep it safe, and send what is justified.
use kafkaesque.Console.Users.Rows.{run-Goes, press-Goes, row_actions-IsPermitted}
use kafkaesque.Ui.Table.{clickable}
use kafkaesque.Auth.Guards.{can}
use kafkaesque.Console.Users.{UsersIsSafe, IsPermitted}
use kafkaesque.Dialogs.AddUser.{text_length}
use kafkaesque.Api.Client.{reset_user_password, delete_user}
use kafkaesque.Prelude.{
  All-lookup, and-cases, leb, ◌&&◌, ltb, inr, inl, Bool-cases, Option-cases, arith, Bool, true,
  false, ◌≡◌, Option, some, Memᴰ,
}
use kafkaesque.Api.Types.{User}
use kafkaesque.Pages.Users.{
  cancel_delete, type_password, revoked, was_reset, enabled, close_details, close_edit, close_add,
  cancel_reset, confirm_reset, deleted, press_add, select, confirm_delete, UsersState,
}
use kafkaesque.Console.Requests.{Goes-sends, Goes-idle, Goes, about_user, Past}
use kafkaesque.Pages.Users.{disabled, failed}
use kafkaesque.Pages.Users.Safety.{
  deletes, resets, cancelled_delete, answered_delete, answered_disable, answered_enable,
  answered_reset, answered_revoke, add_pressed, add_closed, edit_closed, details_closed, refused,
  row_clicked, cancelled_reset, confirmed_reset, confirmed_delete, CanDelete, Event, on_event,
  pressed, typed,
}

module _ (me : Option User) (past : Past) (here : Memᴰ me past.users) where
  -- A deletion and a reset are about what their dialogs ask about, whoever the user is by now.
  confirm_delete-Goes :
      (pending : Bool) (s : UsersState)
      → UsersIsSafe past s
      → Goes (UsersIsSafe past) past (confirm_delete pending s)
  unfolding confirm_delete CanDelete
  confirm_delete-Goes pending s h = elim (Option-cases s.delete_target) [
    | inl e ↦ Goes-idle (UsersIsSafe past) past (confirm_delete pending s) s (ground arith) h
    | inr (u, e) ↦ elim (Bool-cases (clickable false pending)) [
      | inl c ↦
          let (you, m, k) = h.deleting u e in
          Goes-sends (UsersIsSafe past) past (confirm_delete pending s) s (delete_user u.id)
            (ground arith) h (about_user you m (deletes u k.0 k.1))
      | inr c ↦ Goes-idle (UsersIsSafe past) past (confirm_delete pending s) s (ground arith) h
    ]
  ]

  confirm_reset-Goes :
      (pending : Bool) (s : UsersState)
      → UsersIsSafe past s
      → Goes (UsersIsSafe past) past (confirm_reset pending s)
  unfolding confirm_reset
  confirm_reset-Goes pending s h = elim (Option-cases s.reset_target) [
    | inl e ↦ Goes-idle (UsersIsSafe past) past (confirm_reset pending s) s (ground arith) h
    | inr (u, e) ↦
        elim (Bool-cases (
          clickable (ltb (text_length s.new_password) 6) pending
          && leb 6 (text_length s.new_password))) [
            | inl c ↦
                let (you, m, k) = h.resetting u e in
                Goes-sends (UsersIsSafe past) past (confirm_reset pending s) s
                  (reset_user_password u.id s.new_password (some "admin reset")) (ground arith) h
                  (about_user you m (resets u s.new_password k (and-cases _ _ c).1))
            | inr c ↦ Goes-idle (UsersIsSafe past) past (confirm_reset pending s) s (ground arith) h
          ]
  ]

  cancel_reset-Goes :
      (pending : Bool) (s : UsersState)
      → UsersIsSafe past s
      → Goes (UsersIsSafe past) past (cancel_reset pending s)
  unfolding cancel_reset
  cancel_reset-Goes true s h = (h, tt)
  cancel_reset-Goes false s h = (
    record {
      deleting = h.deleting;
      resetting = λ u e. absurd (cc);
      adding = h.adding;
      editing = h.editing;
    },
    tt,
  )

  press_add-Goes :
      (s : UsersState) → UsersIsSafe past s → Goes (UsersIsSafe past) past (press_add me s)
  unfolding press_add
  press_add-Goes s h = elim (Bool-cases (can me "users.create")) [
    | inl e ↦ rw e (
      record {
        deleting = h.deleting;
        resetting = h.resetting;
        adding = λ q. (me, here, e);
        editing = h.editing;
      },
      tt,
    )
    | inr e ↦ rw e (h, tt)
  ]

  pub on_event-Goes :
      (e : Event me) (s : UsersState)
      → UsersIsSafe past s
      → Goes (UsersIsSafe past) past (on_event me e s)
  unfolding on_event deleted close_add close_edit close_details disabled enabled was_reset revoked
      failed type_password cancel_delete
  on_event-Goes (pressed u a m) s h =
      press-Goes me past here a s
        (All-lookup (λ b. b.disabled ≡ false → IsPermitted me b.click) _
          (row_actions-IsPermitted me past here u) m)
        h
  on_event-Goes (confirmed_delete pending) s h = confirm_delete-Goes pending s h
  on_event-Goes (confirmed_reset pending) s h = confirm_reset-Goes pending s h
  on_event-Goes (cancelled_reset pending) s h = cancel_reset-Goes pending s h
  on_event-Goes cancelled_delete s h = (
    record {
      deleting = λ u e. absurd (cc);
      resetting = h.resetting;
      adding = h.adding;
      editing = h.editing;
    },
    tt,
  )
  on_event-Goes answered_delete s h = (
    record {
      deleting = λ u e. absurd (cc);
      resetting = h.resetting;
      adding = h.adding;
      editing = h.editing;
    },
    tt,
  )
  on_event-Goes answered_disable s h = (h, tt)
  on_event-Goes answered_enable s h = (h, tt)
  on_event-Goes answered_reset s h = (
    record {
      deleting = h.deleting;
      resetting = λ u e. absurd (cc);
      adding = h.adding;
      editing = h.editing;
    },
    tt,
  )
  on_event-Goes answered_revoke s h = (h, tt)
  on_event-Goes add_pressed s h = press_add-Goes s h
  on_event-Goes add_closed s h = (
    record {
      deleting = h.deleting;
      resetting = h.resetting;
      adding = λ e. absurd (cc);
      editing = h.editing;
    },
    tt,
  )
  on_event-Goes edit_closed s h = (
    record {
      deleting = h.deleting;
      resetting = h.resetting;
      adding = h.adding;
      editing = λ u e. absurd (cc);
    },
    tt,
  )
  on_event-Goes details_closed s h = (
    record {
      deleting = h.deleting;
      resetting = h.resetting;
      adding = h.adding;
      editing = h.editing;
    },
    tt,
  )
  on_event-Goes (row_clicked u) s h = run-Goes me past here (select u) s tt h
  on_event-Goes (typed text) s h = (
    record {
      deleting = h.deleting;
      resetting = h.resetting;
      adding = h.adding;
      editing = h.editing;
    },
    tt,
  )
  on_event-Goes (refused message) s h = (h, tt)
