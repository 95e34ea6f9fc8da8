-- ===== src/Layout/Bell.antt =====
-- `NotificationBell` (frontend/src/components/NotificationBell.tsx). Times are milliseconds; what
-- `Date` makes of a text is the argument `time_of`, `none` for a text that is no time, or an earlier
-- one than 1970. `Number` of the stored text is the argument `number_of`, `none` where it is NaN.

pub mod Laws
use kafkaesque.Prelude.Decimal.{to_text}
use text.Mathlib.Text.{starts_with}
use kafkaesque.Ui.{set_item, navigate, Effect}
use kafkaesque.Prelude.Texts.{strip_prefix, replace_char, some_text, to_lower}
use kafkaesque.Pages.Audit.{AuditEntry}
use Prim.Native.String.{◌++◌ as ◌<>◌}
use kafkaesque.Prelude.{
  ◌∷◌, ◌/◌, ltb, ◌-◌, [], keep, not, or_else, some, eqb, false, length, none, take, Bool, List,
  Option, if◌then◌else◌, ℕ, String,
}

pub record BellState : Type 0 where
  pub is_open : Bool
  pub read_at : Option ℕ

abbrev pub read_at_key : String
read_at_key = "sf_notifications_read_at"

-- The first 20 entries are shown.
unfoldable pub shown : List AuditEntry → List AuditEntry
shown items = take 20 items

unfoldable pub format_activity : AuditEntry → String
format_activity e =
    let action = to_lower (replace_char "_" " " e.action) in
    if starts_with e.action "LOGIN"
    then "User " <> (or_else (some_text (some e.user_email)) "unknown" <> (" " <> action))
    else action <> (" — " <> strip_prefix ":" e.resource)

unfoldable pub mark_all_read : ℕ → BellState → BellState × List Effect
mark_all_read now s = (record s { read_at = some now }, set_item read_at_key (to_text now) ∷ [])

unfoldable pub toggle : BellState → BellState × List Effect
toggle s = (record s { is_open = not s.is_open }, [])

unfoldable pub press_backdrop : BellState → BellState × List Effect
press_backdrop s = (record s { is_open = false }, [])

-- An entry, and the button below the entries.
unfoldable pub press_entry : BellState → BellState × List Effect
press_entry s = (record s { is_open = false }, navigate "/audit" ∷ [])

module _ (number_of : String → Option ℕ) where
  -- `Number(localStorage.getItem(READ_AT_KEY) || 0)`
  unfoldable pub start : Option String → BellState
  start stored = record {
    is_open = false;
    read_at = elim (some_text stored) [ none ↦ some 0 | some t ↦ number_of t ];
  }

module _ (time_of : String → Option ℕ) where
  -- `new Date(created_at).getTime() > readAt`
  unfoldable pub is_unread : BellState → AuditEntry → Bool
  is_unread s e = elim (time_of e.created_at) [
    | none ↦ false
    | some t ↦ elim s.read_at [ none ↦ false | some r ↦ ltb r t ]
  ]

  unfoldable pub unread_count : List AuditEntry → BellState → ℕ
  unread_count items s = length (keep (is_unread s) (shown items))

  unfoldable pub badge : List AuditEntry → BellState → Option String
  badge items s =
      let n = unread_count items s in
      if eqb n 0 then none else some (if ltb 9 n then "9+" else to_text n)

  -- The time of an entry; another day is left to the argument `date_text`.
  unfoldable pub relative_time : (String → String) → ℕ → String → String
  relative_time date_text now iso = elim (time_of iso) [
    | none ↦ date_text iso
    | some t ↦
        let diff = now - t in
        if ltb diff 60000
        then "Just now"
        else if ltb diff 3600000
        then to_text (diff / 60000) <> " min ago"
        else if ltb diff 86400000
        then to_text (diff / 3600000) <> " hr ago"
        else date_text iso
  ]
