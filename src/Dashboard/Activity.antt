-- ===== src/Dashboard/Activity.antt =====
-- The recent activity (frontend/src/components/dashboard/RecentActivity.tsx) and the series of the
-- messages' chart, `buildMessageActivity` (frontend/src/pages/DashboardPage.tsx).
pub mod Laws
use kafkaesque.Metrics.{ActivitySnapshot}
use text.Mathlib.Text.{starts_with}
use kafkaesque.Prelude.Texts.{
  some_text, has_text, drop_text, strip_prefix, replace_char, to_lower, to_upper,
}
use kafkaesque.Pages.Audit.{AuditEntry}
use Prim.Native.String.{◌++◌ as ◌<>◌}
use kafkaesque.Prelude.{
  or_else, ◌||◌, ◌&&◌, [], keep, leb, map, ◌+◌, false, length, ltb, ◌*◌, ◌∷◌, Bool, ◌-◌, ◌==◌,
  Option, if◌then◌else◌, take, ℕ, List, String, none, some,
}

-- `/^topic:/i`
abbrev without_topic : String → String
without_topic r = if starts_with (to_lower r) "topic:" then drop_text 6 r else r

unfoldable pub activity_label : AuditEntry → String
activity_label e =
    let action = to_lower (replace_char "_" " " e.action) in
    let resource = without_topic (strip_prefix ":" e.resource) in
    if has_text e.action "TOPIC" && has_text e.action "CREAT"
    then "Topic '" <> (resource <> "' created")
    else if has_text e.action "CONSUMER" || has_text e.action "GROUP"
    then "Consumer group " <> (resource <> " joined")
    else if starts_with e.action "LOGIN"
    then "User " <> (or_else (some_text (some e.user_email)) "unknown" <> " login success")
    else if has_text e.action "PUBLISH"
    then "Message published to " <> resource
    else if has_text e.action "UPDAT"
    then "Topic '" <> (resource <> "' updated")
    else action <> (" — " <> resource)

unfoldable pub result_label : String → String
result_label result =
    let r = to_upper result in
    if r == "SUCCESS" then "SUCCESS" else if r == "FAILURE" then "FAILED" else "INFO"

unfoldable pub visible : List AuditEntry → List AuditEntry
visible entries = take 4 entries

pub record Point : Type 0 where
  pub label : String
  pub messages_in : ℕ
  pub messages_out : ℕ

module _ (time_of : String → Option ℕ) where
  abbrev within : (ℕ → Bool) → AuditEntry → Bool
  within near e = elim (time_of e.created_at) [ none ↦ false | some t ↦ near t ]

  -- `Math.abs(t - ts) < 60_000`
  abbrev close_to : ℕ → ℕ → Bool
  close_to ts t = ltb (t - ts + (ts - t)) 60000

  abbrev published : (ℕ → Bool) → List AuditEntry → ℕ
  published near es = length (keep (λ e. within near e && has_text e.action "PUBLISH") es)

  -- The points of a history, each with the one before it.
  from_history : List AuditEntry → ActivitySnapshot → List ActivitySnapshot → List Point
  from_history es prev [] = []
  from_history es prev (p ∷ ps) =
      record {
        label = p.label;
        messages_in = prev.total_lag - p.total_lag;
        messages_out = published (close_to p.ts) es;
      }
      ∷ from_history es p ps

  -- The bucket that ends `i` times five minutes before `now`.
  abbrev bucket : (ℕ → String) → ℕ → List AuditEntry → ℕ → Point
  bucket clock now es i =
      let ts = now - i * 300000 in
      record {
        label = clock ts;
        messages_in = 0;
        messages_out = published (λ t. leb ts (t + 300000) && leb t (ts + 300000)) es;
      }

  -- `clock` is what `toLocaleTimeString` prints of a time.
  unfoldable pub build_message_activity :
      (ℕ → String) → ℕ → List AuditEntry → List ActivitySnapshot → List Point
  unfolding from_history
  build_message_activity clock now es (p ∷ q ∷ ps) = from_history es p (p ∷ q ∷ ps)
  build_message_activity clock now es _ = map (bucket clock now es) (5 ∷ 4 ∷ 3 ∷ 2 ∷ 1 ∷ 0 ∷ [])

-- `hasData` of the chart (frontend/src/components/dashboard/ClusterMetricsChart.tsx): without, it says
-- that it is collecting samples.
unfoldable pub has_data : List Point → Bool
has_data points = leb 2 (length points)
