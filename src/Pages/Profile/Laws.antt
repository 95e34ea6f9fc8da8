-- ===== src/Pages/Profile/Laws.antt =====
-- The change of the own password.
use kafkaesque.Dialogs.AddUser.{text_length}
use kafkaesque.Prelude.Texts.{is_blank}
use kafkaesque.Api.Client.{change_password}
use kafkaesque.Ui.{sent}
use kafkaesque.Api.Types.{User}
use kafkaesque.Prelude.{
  arith, true, ◌==◌, leb, not, ◌&&◌, is_some, ◌↔◌, [], ◌∷◌, ◌≡◌, Bool, Option, none, some,
}
use kafkaesque.Ui.Table.{clickable}
use kafkaesque.Pages.Profile.{ProfileState, can_submit, press_change}

-- Pressing the button sends the change exactly when there is a user, no change is pending, the current
-- password is given, the new one has at least 6 characters and is typed twice the same; and else
-- nothing.
pub press_change_iff :
    (me : Option User) (pending : Bool) (s : ProfileState)
    → (sent (press_change me pending s).1 ≡ change_password s.current_password s.new_password ∷ [])
      ↔ ((is_some me
            && not pending
            && not (is_blank s.current_password)
            && leb 6 (text_length s.new_password)
            && s.new_password == s.confirm_password)
          ≡ true)
unfolding press_change can_submit clickable
press_change_iff none pending s = (λ h. absurd (cc), λ h. absurd (cc))
press_change_iff (some u) pending s = (λ h. ground arith, λ h. ground arith)
