-- ===== src/Console/Users/Rows.antt =====
-- The menu of a row of the page of users keeps the page safe, and sends what is justified.
use kafkaesque.Ui.Table.{RowAction}
use kafkaesque.Auth.Guards.{can}
use kafkaesque.Console.Users.{UsersIsSafe, IsPermitted}
use mathlib.Core.Path.{subst}
use kafkaesque.Dialogs.EditUser.{UserRow}
use kafkaesque.Prelude.{
  inr, inl, or_else, Bool-cases, arith, if◌then◌else◌, Bool, true, false, ◌≡◌, Option, none, Memᴰ,
  All,
}
use kafkaesque.Api.Types.{User}
use kafkaesque.Pages.Users.{
  show_audit, revoke, enable, disable, ask_delete, ask_reset, is_self, edit, select, RowCommand,
  press, row_actions, run, UsersState,
}
use kafkaesque.Console.Requests.{Goes, about_user, Past}
use kafkaesque.Pages.Users.Safety.{revokes, enables, disables, CanDelete}

module _ (me : Option User) (past : Past) (here : Memᴰ me past.users) where
  switch-IsPermitted :
      (active : Bool) (u : UserRow)
      → (can me "users.disable" ≡ true) × (is_self me u ≡ false)
      → IsPermitted me (if active then disable u else enable u)
  switch-IsPermitted true u h = h
  switch-IsPermitted false u h = h

  pub row_actions-IsPermitted :
      (u : UserRow) → All (λ a. a.disabled ≡ false → IsPermitted me a.click) (row_actions me u)
  unfolding row_actions CanDelete
  row_actions-IsPermitted u = (
    (λ h. tt),
    (
      (λ h. ground arith),
      (
        (λ h. ground arith),
        (
          (λ h. switch-IsPermitted (or_else u.is_active false) u (ground arith, ground arith)),
          ((λ h. (ground arith, ground arith)), ((λ h. ground arith), ((λ h. tt), tt))),
        ),
      ),
    ),
  )

  pub run-Goes :
      (c : RowCommand) (s : UsersState)
      → IsPermitted me c
      → UsersIsSafe past s
      → Goes (UsersIsSafe past) past (run c s)
  unfolding run
  run-Goes (select u) s k h = (
    record {
      deleting = h.deleting;
      resetting = h.resetting;
      adding = h.adding;
      editing = h.editing;
    },
    tt,
  )
  run-Goes show_audit s k h = (h, tt)
  run-Goes (edit u) s k h = (
    record {
      deleting = h.deleting;
      resetting = h.resetting;
      adding = h.adding;
      editing = λ v e. (me, here, k);
    },
    tt,
  )
  run-Goes (ask_reset u) s k h = (
    record {
      deleting = h.deleting;
      resetting = λ v e. (me, here, k);
      adding = h.adding;
      editing = h.editing;
    },
    tt,
  )
  run-Goes (ask_delete u) s k h = (
    record {
      deleting = λ v e. let q : u ≡ v = cc in (me, here, subst (CanDelete me) q k);
      resetting = h.resetting;
      adding = h.adding;
      editing = h.editing;
    },
    tt,
  )
  run-Goes (disable u) s k h = (h, (about_user me here (disables u k.0 k.1), tt))
  run-Goes (enable u) s k h = (h, (about_user me here (enables u k.0 k.1), tt))
  run-Goes (revoke u) s k h = (h, (about_user me here (revokes u k), tt))

  pub press-Goes :
      (a : RowAction RowCommand) (s : UsersState)
      → (a.disabled ≡ false → IsPermitted me a.click)
      → UsersIsSafe past s
      → Goes (UsersIsSafe past) past ((press a (none, s)).0.1, (press a (none, s)).1)
  unfolding press
  press-Goes a s k h = elim (Bool-cases a.disabled) [
    | inl e ↦ rw e (h, tt)
    | inr e ↦ rw e (run-Goes a.click s (k e) h)
  ]
