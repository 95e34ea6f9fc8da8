-- ===== src/Examples/Sessions.antt =====
-- A login and a late answer.
use kafkaesque.Api.Transport.{auth_headers}
use kafkaesque.Prelude.{[], ◌∷◌, false, refl, true, some, ◌≡◌, String, none}
use kafkaesque.Api.Types.{User}
use kafkaesque.Auth.Session.{
  logs_out, after, Step, logout, me_resolved, World, protected, initial, token_effect, logged_in,
  rendered, mount, Reach, here, next, login_answers,
}
use kafkaesque.Auth.Session.Invariant
use kafkaesque.Auth.Session.Progress
use kafkaesque.Auth.Guards.{page}
use Prim.Native.String.{◌++◌ as ◌<>◌}

abbrev pat : User
pat = record {
  id = "u1";
  email = "pat@example.org";
  display_name = "Pat";
  role = "OPERATOR";
  is_active = some true;
  last_login_at = none;
  password_changed_at = none;
  created_at = none;
  permissions = none;
}

abbrev after_login : World
after_login = record {
  session = record { user = some pat; token = some "t1"; loading = false; stored = some "t1" };
  checks = 1;
  refreshes = 0;
  bypassed = false;
}

login_reached : Reach (mount none) after_login
unfolding mount initial token_effect rendered logged_in
login_reached = next here (login_answers (mount none) "t1" pat)

Reach-IsSound_example : Invariant.IsSound after_login
Reach-IsSound_example = Invariant.Reach-IsSound none login_reached

protected_refl : protected after_login.session ≡ page
unfolding protected
protected_refl = refl

protected-auth_headers_example :
    (t : String) × (after_login.session.token ≡ some t)
    × (auth_headers after_login.session.stored ≡ ("Authorization", "Bearer " <> t) ∷ [])
protected-auth_headers_example =
    Invariant.protected-auth_headers none login_reached refl protected_refl

-- The user has signed in, and the call of `api.me` that follows is open.
late_answer_example :
    let out = after logout after_login in
    let v = after (me_resolved pat) (record out { checks = 0 }) in
    Step out v × (v.session.token ≡ none) × (v.session.user ≡ some pat)
late_answer_example = Invariant.late_answer after_login 0 pat refl

abbrev answered : World
answered = record {
  session = record { user = some pat; token = some "t1"; loading = false; stored = some "t1" };
  checks = 0;
  refreshes = 0;
  bypassed = false;
}

start_answered : Progress.Answer (mount (some "t1")) answered
unfolding mount initial token_effect rendered me_resolved
start_answered = Progress.resolved 0 pat refl

Answer-settles_example : (logout answered.session).loading ≡ false
unfolding rendered token_effect logout
Answer-settles_example = Progress.Answer-settles start_answered (next here (logs_out answered))
