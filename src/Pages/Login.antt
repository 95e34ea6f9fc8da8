-- ===== src/Pages/Login.antt =====
-- `LoginPage` (frontend/src/pages/LoginPage.tsx). Whether the browser prefers a dark theme is the
-- argument `prefers_dark`.
pub mod Laws
use kafkaesque.Prelude.Texts.{is_blank, trim, some_text}
use kafkaesque.Ui.{load, log_in, set_item, Effect}
use kafkaesque.Auth.Session.{is_given, Session}
use kafkaesque.Prelude.{
  ◌∷◌, [], none, not, or_else, ◌&&◌, ◌==◌, false, if◌then◌else◌, some, true, Bool, List, Option,
  String,
}
use kafkaesque.Auth.Guards.{Outcome, page, redirect}

unfoldable pub read_theme_preference : Bool → Option String → Bool
read_theme_preference prefers_dark none = prefers_dark
read_theme_preference prefers_dark (some saved) =
    if saved == "dark" then true else if saved == "light" then false else prefers_dark

-- The answer of `api.authConfig`.
pub record AuthConfig : Type 0 where
  pub local_login : Bool
  pub oidc_enabled : Bool
  pub oidc_login_url : Option String

-- `search_token` is the parameter `token` of the page's address.
pub record LoginState : Type 0 where
  pub email : String
  pub password : String
  pub error_text : String
  pub submitting : Bool
  pub dark : Bool
  pub search_token : Option String

unfoldable pub start : Bool → Option String → Option String → LoginState
start prefers_dark theme search_token = record {
  email = "";
  password = "";
  error_text = "";
  submitting = false;
  dark = read_theme_preference prefers_dark theme;
  search_token = search_token;
}

-- The effect on `[dark]`.
unfoldable pub keep_theme : LoginState → LoginState × List Effect
keep_theme s = (s, set_item "sf_theme" (if s.dark then "dark" else "light") ∷ [])

-- The effect on `[searchParams]`: the token of a single sign-on.
unfoldable pub take_token : LoginState → LoginState × List Effect
take_token s = elim (some_text s.search_token) [
  | none ↦ (s, [])
  | some t ↦ (record s { search_token = none }, set_item "sf_token" t ∷ load "/" ∷ [])
]

unfoldable pub toggle_theme : LoginState → LoginState × List Effect
toggle_theme s = keep_theme (record s { dark = not s.dark })

-- What the route shows: the page, or a redirection.
unfoldable pub login_route : Session → Outcome
login_route s = if not s.loading && is_given s.token then redirect "/" else page

unfoldable pub on_submit : LoginState → LoginState × List Effect
on_submit s =
    (record s { error_text = ""; submitting = true }, log_in (trim s.email) s.password ∷ [])

unfoldable pub login_resolved : LoginState → LoginState × List Effect
login_resolved s = (record s { submitting = false }, [])

-- `none` is an error that is no `Error`.
unfoldable pub login_rejected : Option String → LoginState → LoginState × List Effect
login_rejected message s =
    (record s { error_text = or_else message "Login failed"; submitting = false }, [])

-- `authConfig.data?.local_login ?? true`; without an answer there is the local form, and no single
-- sign-on.
unfoldable pub show_local_login : Option AuthConfig → Bool
show_local_login none = true
show_local_login (some c) = c.local_login

unfoldable pub show_oidc : Option AuthConfig → Bool
show_oidc none = false
show_oidc (some c) = c.oidc_enabled

unfoldable pub oidc_href : Option AuthConfig → String
oidc_href c =
    let url : Option String = elim c [ none ↦ none | some c ↦ c.oidc_login_url ] in
    or_else (some_text url) "/api/v1/auth/oidc/login"

-- The button of the form; its two inputs are required, so the browser submits no empty one.
unfoldable pub press_login : Option AuthConfig → LoginState → LoginState × List Effect
press_login c s =
    if show_local_login c && not s.submitting && not (is_blank s.email) && not (is_blank s.password)
    then on_submit s
    else (s, [])

-- The error is shown with the local form.
unfoldable pub shown_error : Option AuthConfig → LoginState → Option String
shown_error c s = if show_local_login c then some_text (some s.error_text) else none
