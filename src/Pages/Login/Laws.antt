-- ===== src/Pages/Login/Laws.antt =====
-- The login page against the routes behind the login.
use kafkaesque.Auth.Guards.{page, redirect, spinner}
use kafkaesque.Prelude.{arith, false, true, ◌↔◌, ◌≡◌}
use kafkaesque.Auth.Session.{Session, protected}
use kafkaesque.Pages.Login.{login_route}

-- The login page sends the user to the pages exactly when they let him in, and shows its form whenever
-- they send him to it: no session goes back and forth. A session that still loads is shown the form at
-- the login and waits behind it.
pub login_route-protected :
    (s : Session)
    → ((login_route s ≡ redirect "/") ↔ (protected s ≡ page))
      × ((protected s ≡ redirect "/login") ↔ ((login_route s ≡ page) × (s.loading ≡ false)))
      × (s.loading ≡ true → (login_route s ≡ page) × (protected s ≡ spinner))
unfolding login_route protected
login_route-protected s = (
  (λ h. ground arith, λ h. ground arith),
  (λ h. (ground arith, ground arith), λ (h, l). ground arith),
  λ l. (ground (arith, l), ground (arith, l)),
)
