-- ===== src/Auth/Session/Progress.antt =====
-- When a session stops loading.
use kafkaesque.Auth.Session.Invariant.{Reach-IsSound}
use kafkaesque.Api.Types.{User}
use kafkaesque.Prelude.{
  zero, arith, ◌<◌, inr, inl, refl, Bool-cases, false, suc, true, ◌≡◌, String, ℕ, Option,
}
use kafkaesque.Auth.Session.{
  logs_out, token_stored, store_token, login_answers, refresh_fails, refresh_answers, is_given,
  refresh, me_fails, me_answers, Step, here, same_token, after, logout, next, logged_in, mount,
  refreshed, Reach, me_rejected, token_effect, World, me_resolved, rendered,
}

-- The call of `api.me` that the session waits for is answered, or fails.
pub data Answer (w : World) : World → Type 0 where
  resolved :
      (n : ℕ) (u : User)
      → w.checks ≡ suc n
      → Answer w (after (me_resolved u) (record w { checks = n }))
  rejected : (n : ℕ) → w.checks ≡ suc n → Answer w (after me_rejected (record w { checks = n }))

rendered-settled :
    (before : Option String) (w : World)
    → w.session.loading ≡ false
    → (rendered before w).session.loading ≡ false
unfolding rendered token_effect
rendered-settled before w h = elim (Bool-cases (same_token before w.session.token)) [
  | inl e ↦ rw e h
  | inr e ↦ elim (Bool-cases (is_given w.session.token)) [
    | inl g ↦ rw (e, g) h
    | inr g ↦ rw (e, g) refl
  ]
]

Step-settled : {w w' : World} → Step w w' → w.session.loading ≡ false → w'.session.loading ≡ false
unfolding me_resolved me_rejected refreshed logged_in logout store_token
Step-settled (me_answers w n u e) h = rendered-settled _ _ refl
Step-settled (me_fails w n e) h = rendered-settled _ _ refl
Step-settled (refresh w g) h = h
Step-settled (refresh_answers w n u e) h = rendered-settled _ _ h
Step-settled (refresh_fails w n e) h = h
Step-settled (login_answers w token u) h = rendered-settled _ _ h
Step-settled (logs_out w) h = rendered-settled _ _ h
Step-settled (token_stored w token) h = h

Reach-settled : {w w' : World} → Reach w w' → w.session.loading ≡ false → w'.session.loading ≡ false
Reach-settled here h = h
Reach-settled (next r st) h = Step-settled st (Reach-settled r h)

Answer-settled : {w v : World} → Answer w v → v.session.loading ≡ false
unfolding me_resolved me_rejected
Answer-settled (resolved n u e) = rendered-settled _ _ refl
Answer-settled (rejected n e) = rendered-settled _ _ refl

-- Once a call of `api.me` has been answered, or has failed, the session does not load, and never does
-- again, whatever happens: no page goes back to waiting.
pub Answer-settles : {w v v' : World} → Answer w v → Reach v v' → v'.session.loading ≡ false
Answer-settles a r = Reach-settled r (Answer-settled a)

positive : (n : ℕ) → 0 < n → (m : ℕ) × (n ≡ suc m)
positive zero l = absurd (omega arith)
positive (suc n) l = (n, refl)

-- A session that loads waits for a call of `api.me` whose failure, if nothing else happens, ends the
-- loading: no session loads for ever while its calls end.
pub loading-answered :
    (stored : Option String) {w : World}
    → Reach (mount stored) w
    → w.session.loading ≡ true
    → (v : World) × Answer w v × (v.session.loading ≡ false)
loading-answered stored {w} r l =
    let (n, e) = positive w.checks ((Reach-IsSound stored r).awaited l) in
    let a : Answer w _ = rejected n e in (_, a, Answer-settled a)
