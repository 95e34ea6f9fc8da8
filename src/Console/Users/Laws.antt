-- ===== src/Console/Users/Laws.antt =====
-- The page of users with its dialogs, as the console takes it.
use kafkaesque.Console.Users.Events.{on_event-Goes}
use kafkaesque.Ui.{sent}
use kafkaesque.Ui.Table.{clickable}
use kafkaesque.Console.Users.{
  UsersEvent, on_users, add_submitted, edit_saved, users_step, UsersIsSafe,
}
use kafkaesque.Dialogs.AddUser.{text_length}
use kafkaesque.Console.{PageModel}
use mathlib.Core.Path.{subst}
use kafkaesque.Dialogs.EditUser.{UserRow}
use kafkaesque.Prelude.{
  refl, inr, sym, inl, Bool-cases, arith, Bool, true, false, ◌≡◌, Option, none, some, Memᴰ, All,
}
use kafkaesque.Api.Types.{User}
use kafkaesque.Pages.Users.{UsersState}
use kafkaesque.Dialogs.AddUser
use kafkaesque.Dialogs.EditUser
use kafkaesque.Console.Requests.{
  note, Goes-idle, Goes, Had-cons, adds_user, edits_user, Past, Had, IsJustified,
}
use kafkaesque.Pages.Users.{start}

submit-sent :
    (past : Past) (pending : Bool) (f : AddUser.AddUser)
    → Had past "users.create"
    → All (IsJustified past) (sent (AddUser.handle_submit pending f).1)
unfolding AddUser.handle_submit
submit-sent past true f had = tt
submit-sent past false f had = elim (Bool-cases (AddUser.is_valid (AddUser.errors_of f.form))) [
  | inl e ↦ rw e (adds_user had f.form, tt)
  | inr e ↦ rw e tt
]

save-sent :
    (past : Past) (pending : Bool) (o : Option UserRow) (f : EditUser.EditUser)
    → ((u : UserRow) → o ≡ some u → Had past "users.update")
    → All (IsJustified past) (sent (EditUser.press_save o pending f).1)
unfolding EditUser.press_save clickable
save-sent past pending none f had = tt
save-sent past true (some u) f had = tt
save-sent past false (some u) f had =
    elim (Bool-cases (EditUser.is_valid (EditUser.errors_of f.form))) [
      | inl e ↦ rw e (edits_user (had u refl) u f.form, tt)
      | inr e ↦ rw e tt
    ]

pub users_step-Goes :
    (me : Option User) (past : Past) (e : UsersEvent me) (s : UsersState)
    → Memᴰ me past.users
    → UsersIsSafe past s
    → Goes (UsersIsSafe past) past (users_step me e s)
unfolding users_step
users_step-Goes me past (on_users e) s here h = on_event-Goes me past here e s h
users_step-Goes me past (add_submitted pending f) s here h = elim (Bool-cases s.add_open) [
  | inl o ↦
      let sends : users_step me (add_submitted pending f) s
          ≡ (s, (AddUser.handle_submit pending f).1) =
        ground arith in
      subst (Goes (UsersIsSafe past) past) (sym sends) (h, submit-sent past pending f (h.adding o))
  | inr o ↦
      Goes-idle (UsersIsSafe past) past (users_step me (add_submitted pending f) s) s (ground arith)
        h
]
users_step-Goes me past (edit_saved pending f) s here h =
    (h, save-sent past pending s.edit_target f h.editing)

-- The safety of a state of the page outlives the user.
pub users-safe_cons :
    (me : Option User) (past : Past) (s : UsersState)
    → UsersIsSafe past s
    → UsersIsSafe (note me past) s
users-safe_cons me past s h = record {
  deleting = λ u e. let (you, m, k) = h.deleting u e in (you, Memᴰ.tail m, k);
  resetting = λ u e. Had-cons me past _ (h.resetting u e);
  adding = λ e. Had-cons me past _ (h.adding e);
  editing = λ u e. Had-cons me past _ (h.editing u e);
}

pub start-UsersIsSafe : (past : Past) → UsersIsSafe past start
start-UsersIsSafe past = record {
  deleting = λ u e. absurd (cc);
  resetting = λ u e. absurd (cc);
  adding = λ e. absurd (cc);
  editing = λ u e. absurd (cc);
}

abbrev pub users_model : PageModel
users_model = record {
  State = UsersState;
  start = start;
  Event = λ past me cluster. UsersEvent me;
  step = λ past me cluster. users_step me;
  IsSafe = UsersIsSafe;
  start_safe = start-UsersIsSafe;
  safe_cons = users-safe_cons;
  step_safe = λ me cluster past e s. users_step-Goes me past e s;
}
