-- ===== src/Pages/Audit/Detail.antt =====
-- What the page of the audit log shows of an entry (frontend/src/pages/AuditPage.tsx). The argument
-- `locale_date` is `new Date(…).toLocaleString()`.
use kafkaesque.Pages.Audit.{AuditEntry, AuditState}
use kafkaesque.Prelude.Texts.{some_text}
use kafkaesque.Prelude.{[], ◌∷◌, or_else, List, String, none, some}

module _ (locale_date : String → String) where
  -- The cells of a row: time, user, action, resource, result.
  unfoldable pub audit_cells : AuditEntry → List String
  audit_cells a =
      locale_date a.created_at
      ∷ or_else (some_text (some a.user_email)) "—"
      ∷ a.action
      ∷ a.resource
      ∷ a.result
      ∷ []

  -- Label and text of the fields of the drawer; the reason is shown where it is not empty.
  unfoldable pub audit_detail : AuditEntry → List (String × String)
  audit_detail a =
      ("Timestamp", locale_date a.created_at)
      ∷ ("User", a.user_email)
      ∷ ("Action", a.action)
      ∷ ("Resource", a.resource)
      ∷ ("Result", a.result)
      ∷ elim (some_text a.reason) [ none ↦ [] | some r ↦ ("Reason", r) ∷ [] ]

unfoldable pub type_filter : String → AuditState → AuditState
type_filter text s = record s { filter = text }
