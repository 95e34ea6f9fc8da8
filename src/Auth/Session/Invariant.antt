-- ===== src/Auth/Session/Invariant.antt =====
-- What holds of the session between events, whatever the order of the answers.
use kafkaesque.Prelude.{
  refl, arith, Option-cases, inr, none, [], false, inl, ◌∷◌, some, Bool-cases, ◌<◌, String, true,
  Option, ◌≡◌, ◌∙◌, suc, ℕ,
}
use Prim.Native.String.{◌++◌ as ◌<>◌}
use kafkaesque.Api.Transport.{auth_headers}
use kafkaesque.Auth.Session.{
  login_answers, refresh_fails, logs_out, token_stored, store_token, after, refresh_answers, here,
  is_given, refresh, me_fails, me_answers, next, is_blank, Step, User, logged_in, logout, page,
  same_token, Reach, initial, refreshed, me_rejected, token_effect, me_resolved, mount, protected,
  rendered, World,
}

-- Unless the stored token was written past the state, it is that of the state, and a page that still loads waits for a call of
-- `api.me`, for a token that is no empty text.
pub record IsSound (w : World) : Type 0 where
  pub in_sync : w.bypassed ≡ false → w.session.stored ≡ w.session.token
  pub awaited : w.session.loading ≡ true → 0 < w.checks

rendered-IsSound : (before : Option String) (w : World) → IsSound w → IsSound (rendered before w)
unfolding rendered token_effect
rendered-IsSound before w h = elim (Bool-cases (same_token before w.session.token)) [
  | inl e ↦ rw e h
  | inr e ↦ elim (Bool-cases (is_given w.session.token)) [
    | inl g ↦ rw (e, g) (record { in_sync = h.in_sync; awaited = λ l. omega arith })
    | inr g ↦ rw (e, g) (record { in_sync = h.in_sync; awaited = λ l. cc })
  ]
]

mount-IsSound : (stored : Option String) → IsSound (mount stored)
unfolding mount token_effect initial
mount-IsSound none = record { in_sync = λ b. refl; awaited = λ l. cc }
mount-IsSound (some t) = elim (Bool-cases (is_blank t)) [
  | inl e ↦ rw e (record { in_sync = λ b. refl; awaited = λ l. cc })
  | inr e ↦ rw e (record { in_sync = λ b. refl; awaited = λ l. omega arith })
]

Step-IsSound : {w w' : World} → Step w w' → IsSound w → IsSound w'
unfolding me_resolved me_rejected refreshed logged_in logout store_token
Step-IsSound (me_answers w n u e) h =
    rendered-IsSound _ _ (record { in_sync = h.in_sync; awaited = λ l. cc })
Step-IsSound (me_fails w n e) h =
    rendered-IsSound _ _ (record { in_sync = λ b. refl; awaited = λ l. cc })
Step-IsSound (refresh w g) h = record { in_sync = h.in_sync; awaited = h.awaited }
Step-IsSound (refresh_answers w n u e) h =
    rendered-IsSound _ _ (record { in_sync = h.in_sync; awaited = h.awaited })
Step-IsSound (refresh_fails w n e) h = record { in_sync = h.in_sync; awaited = h.awaited }
Step-IsSound (login_answers w token u) h =
    rendered-IsSound _ _ (record { in_sync = λ b. refl; awaited = h.awaited })
Step-IsSound (logs_out w) h =
    rendered-IsSound _ _ (record { in_sync = λ b. refl; awaited = h.awaited })
Step-IsSound (token_stored w token) h = record { in_sync = λ b. absurd (cc); awaited = h.awaited }

-- After any events since the page was loaded, the token of the state is the stored one, unless the login
-- page has stored that of a single sign-on, which it does before it loads the console anew; and a
-- session that still loads waits for an answer of `api.me`.
pub Reach-IsSound : (stored : Option String) {w : World} → Reach (mount stored) w → IsSound w
Reach-IsSound stored here = mount-IsSound stored
Reach-IsSound stored (next r st) = Step-IsSound st (Reach-IsSound stored r)

-- As long as the login page has not stored the token of a single sign-on, which it does before it loads
-- the console anew, a page behind the login is shown only to a session that has a token, and its
-- requests carry that token.
pub protected-auth_headers :
    (stored : Option String) {w : World}
    → Reach (mount stored) w
    → w.bypassed ≡ false
    → protected w.session ≡ page
    → (t : String) × (w.session.token ≡ some t)
      × (auth_headers w.session.stored ≡ ("Authorization", "Bearer " <> t) ∷ [])
unfolding protected auth_headers
protected-auth_headers stored {w} r b h = elim (Option-cases w.session.token) [
  | inl e ↦ absurd (ground arith)
  | inr (t, e) ↦ (t, e, rw ((Reach-IsSound stored r).in_sync b) (ground arith))
]

pub rendered-token :
    (before : Option String) (w : World) → (rendered before w).session.token ≡ w.session.token
unfolding rendered token_effect
rendered-token before w = elim (Bool-cases (same_token before w.session.token)) [
  | inl e ↦ rw e refl
  | inr e ↦ elim (Bool-cases (is_given w.session.token)) [
    | inl g ↦ rw (e, g) refl
    | inr g ↦ rw (e, g) refl
  ]
]

rendered-user :
    (before : Option String) (w : World) → (rendered before w).session.user ≡ w.session.user
unfolding rendered token_effect
rendered-user before w = elim (Bool-cases (same_token before w.session.token)) [
  | inl e ↦ rw e refl
  | inr e ↦ elim (Bool-cases (is_given w.session.token)) [
    | inl g ↦ rw (e, g) refl
    | inr g ↦ rw (e, g) refl
  ]
]

-- A render that finds no token calls nothing.
rendered-checks :
    (before : Option String) (w : World)
    → w.session.token ≡ none
    → (rendered before w).checks ≡ w.checks
unfolding rendered token_effect
rendered-checks before w h = elim (Bool-cases (same_token before w.session.token)) [
  | inl e ↦ rw e refl
  | inr e ↦ rw (e, h) refl
]

-- When the user logs out while a call of `api.me` is open, and it is answered afterwards, that answer
-- sets the user again: the session then has a user and no token.
pub late_answer :
    (w : World) (n : ℕ) (u : User)
    → w.checks ≡ suc n
    → let v = after (me_resolved u) (record (after logout w) { checks = n }) in
      Step (after logout w) v × (v.session.token ≡ none) × (v.session.user ≡ some u)
unfolding logout me_resolved
late_answer w n u e =
    let out = record w { session = logout w.session } in
    let v = record (after logout w) {
      session = me_resolved u (after logout w).session;
      checks = n;
    } in
    (
      me_answers (after logout w) n u (rendered-checks w.session.token out refl ∙ e),
      rendered-token _ v ∙ rendered-token w.session.token out,
      rendered-user _ v,
    )
