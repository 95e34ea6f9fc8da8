-- ===== src/Dashboard/Activity/Laws.antt =====
-- What the recent activity and the chart of the messages show.
use kafkaesque.Metrics.{ActivitySnapshot}
use kafkaesque.Prelude.{
  arith, [], suc, ap, ltb, if◌then◌else◌, ◌∷◌, length, true, List, ℕ, Option, refl, String, ◌≡◌,
}
use kafkaesque.Pages.Audit.{AuditEntry}
use kafkaesque.Dashboard.Activity.{build_message_activity, from_history, activity_label, has_data}

-- The label of a failed login is that of a successful one.
pub activity_label-login_failure :
    (e : AuditEntry)
    → activity_label (record e { action = "LOGIN_FAILURE" })
      ≡ activity_label (record e { action = "LOGIN_SUCCESS" })
unfolding activity_label
activity_label-login_failure e = refl

length-from_history :
    (time_of : String → Option ℕ) (es : List AuditEntry) (prev : ActivitySnapshot)
    (ps : List ActivitySnapshot)
    → length (from_history time_of es prev ps) ≡ length ps
unfolding from_history
length-from_history time_of es prev [] = refl
length-from_history time_of es prev (p ∷ ps) = ap suc (length-from_history time_of es p ps)

-- The chart of the messages has one point for each snapshot of a history of two or more, and else six;
-- so it is always drawn, and the note on samples that are collected never comes.
pub has_data-build_message_activity :
    (time_of : String → Option ℕ) (clock : ℕ → String) (now : ℕ) (es : List AuditEntry)
    (history : List ActivitySnapshot)
    → let points = build_message_activity time_of clock now es history in
      (has_data points ≡ true)
      × (length points ≡ (if ltb 1 (length history) then length history else 6))
unfolding has_data build_message_activity
has_data-build_message_activity time_of clock now es [] = (refl, refl)
has_data-build_message_activity time_of clock now es (p ∷ []) = (refl, refl)
has_data-build_message_activity time_of clock now es (p ∷ q ∷ ps) =
    let same = length-from_history time_of es p (p ∷ q ∷ ps) in (ground arith, ground arith)
