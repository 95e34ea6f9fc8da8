-- ===== src/Pages/Audit.antt =====
-- `AuditPage` (frontend/src/pages/AuditPage.tsx).
pub mod Detail
use kafkaesque.Ui.Table.{table_body, Body}
use kafkaesque.Prelude.Texts.{has_text, to_lower}
use kafkaesque.Prelude.{◌||◌, List, Option, Bool, String, none, some}
use Prim.Native.String.{◌++◌ as ◌<>◌}

pub record AuditEntry : Type 0 where
  pub created_at : String
  pub user_email : String
  pub action : String
  pub resource : String
  pub result : String
  pub reason : Option String

pub record AuditState : Type 0 where
  pub filter : String
  pub selected : Option AuditEntry

abbrev pub start : AuditState
start = record { filter = ""; selected = none }

unfoldable pub select : AuditEntry → AuditState → AuditState
select a s = record s { selected = some a }

unfoldable pub close_drawer : AuditState → AuditState
close_drawer s = record s { selected = none }

unfoldable pub row_key : AuditEntry → String
row_key a = a.created_at <> ("-" <> (a.action <> ("-" <> a.resource)))

unfoldable pub matches : AuditEntry → String → Bool
matches a f =
    let q = to_lower f in
    has_text (to_lower a.action) q
    || has_text (to_lower a.user_email) q
    || has_text (to_lower a.resource) q

unfoldable pub table : Bool → Option String → List AuditEntry → AuditState → Body AuditEntry
table loading failure entries s =
    table_body loading failure "No audit entries" none (some s.filter) (some matches) entries
