-- ===== src/Auth/Session.antt =====
-- `AuthProvider` (frontend/src/stores/auth.tsx) and `Protected` (frontend/src/App.tsx). The answers
-- of `api.me` and `api.login` are events: `World` counts the calls that are still open, and
-- `Step` lets them be answered in any order with the user's actions.
pub mod Invariant
pub mod Progress
use kafkaesque.Prelude.{
  ℕ, zero, suc, ◌+◌, Bool, true, false, ◌≡◌, Option, none, some, String, if◌then◌else◌, not,
  or_else, ◌==◌,
}
use kafkaesque.Prelude.Texts.{is_blank}
use kafkaesque.Api.Types.{User}
use kafkaesque.Auth.Guards.{Outcome, page, spinner, redirect}

-- `stored` is the entry `sf_token` of localStorage.
pub record Session : Type 0 where
  pub user : Option User
  pub token : Option String
  pub loading : Bool
  pub stored : Option String

-- `!!token`
abbrev pub is_given : Option String → Bool
is_given none = false
is_given (some t) = not (is_blank t)

-- The state of the first render.
unfoldable pub initial : Option String → Session
initial stored = record { user = none; token = stored; loading = is_given stored; stored = stored }

-- The effect on `[token]`: the new state, and whether `api.me` is called.
unfoldable pub token_effect : Session → Session × Bool
token_effect s = if is_given s.token then (s, true) else (record s { loading = false }, false)

-- `.then(setUser)` and `.finally`
unfoldable pub me_resolved : User → Session → Session
me_resolved u s = record s { user = some u; loading = false }

-- `.catch` and `.finally`
unfoldable pub me_rejected : Session → Session
me_rejected s = record s { stored = none; token = none; loading = false }

-- `refreshUser`, when its call is answered.
unfoldable pub refreshed : User → Session → Session
refreshed u s = record s { user = some u }

-- `login`, when its call is answered.
unfoldable pub logged_in : String → User → Session → Session
logged_in token u s = record s { stored = some token; token = some token; user = some u }

unfoldable pub logout : Session → Session
logout s = record s { stored = none; token = none; user = none }

-- `checks` and `refreshes` are the open calls of the effect and of `refreshUser`; `bypassed` says that
-- the stored entry was written past the state.
pub record World : Type 0 where
  pub session : Session
  pub checks : ℕ
  pub refreshes : ℕ
  pub bypassed : Bool

abbrev same_token : Option String → Option String → Bool
same_token none none = true
same_token (some s) (some t) = s == t
same_token _ _ = false

-- The effect runs after a render in which the token is another one.
unfoldable pub rendered : Option String → World → World
rendered before w =
    if same_token before w.session.token
    then w
    else let (s, called) = token_effect w.session in
      record w { session = s; checks = if called then suc w.checks else w.checks }

unfoldable pub mount : Option String → World
mount stored =
    let (s, called) = token_effect (initial stored) in
    record { session = s; checks = if called then 1 else 0; refreshes = 0; bypassed = false }

-- The entry is written without `setToken`, as the login page does with the token of a single sign-on.
unfoldable pub store_token : Option String → World → World
store_token token w = record w { session = record (w.session) { stored = token }; bypassed = true }

abbrev pub after : (Session → Session) → World → World
after f w = rendered w.session.token (record w { session = f w.session })

pub data Step : World → World → Type 0 where
  me_answers :
      (w : World) (n : ℕ) (u : User)
      → w.checks ≡ suc n
      → Step w (after (me_resolved u) (record w { checks = n }))
  me_fails :
      (w : World) (n : ℕ) → w.checks ≡ suc n → Step w (after me_rejected (record w { checks = n }))
  refresh :
      (w : World)
      → is_given w.session.token ≡ true
      → Step w (record w { refreshes = suc w.refreshes })
  refresh_answers :
      (w : World) (n : ℕ) (u : User)
      → w.refreshes ≡ suc n
      → Step w (after (refreshed u) (record w { refreshes = n }))
  refresh_fails : (w : World) (n : ℕ) → w.refreshes ≡ suc n → Step w (record w { refreshes = n })
  login_answers : (w : World) (token : String) (u : User) → Step w (after (logged_in token u) w)
  logs_out : (w : World) → Step w (after logout w)
  token_stored : (w : World) (token : Option String) → Step w (store_token token w)

pub data Reach (s : World) : World → Type 0 where
  here : Reach s s
  next : {t u : World} → Reach s t → Step t u → Reach s u

unfoldable pub protected : Session → Outcome
protected s =
    if s.loading then spinner else if not (is_given s.token) then redirect "/login" else page
