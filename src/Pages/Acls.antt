-- ===== src/Pages/Acls.antt =====
-- `ACLsContent` (frontend/src/pages/ACLsPage.tsx): filters, the form to create an ACL with the
-- confirmation for broad permissions, and deletion.
pub mod Laws
pub mod Detail
use kafkaesque.Auth.Guards.{permission_guard, any_of, children, fallback}
use kafkaesque.Api.Types.{User}
use kafkaesque.Prelude.Texts.{to_lower, has_text, is_blank, trim, some_text}
use kafkaesque.Api.Client.{create_acl, delete_acl, acls}
use kafkaesque.Ui.Table.{clickable, table_body, Body, action, RowAction}
use kafkaesque.Ui.{invalidate, mutate, error, success, toast, Effect}
use kafkaesque.Api.Transport.{Request}
use kafkaesque.Api.Types.{AclInfo}
use Prim.Native.String.{◌++◌ as ◌<>◌}
use kafkaesque.Prelude.{
  not, true, ◌&&◌, ◌∷◌, [], if◌then◌else◌, some, ◌||◌, Option, ◌==◌, Bool, List, String, none,
  false,
}

unfoldable pub empty_acl : AclInfo
empty_acl = record {
  principal = "";
  host = "*";
  operation = "READ";
  permission_type = "ALLOW";
  resource_type = "TOPIC";
  resource_name = "";
  pattern_type = "LITERAL";
}

pub record AclsState : Type 0 where
  pub search : String
  pub resource_type_filter : String
  pub resource_name_filter : String
  pub form : AclInfo
  pub view_acl : Option AclInfo
  pub delete_target : Option AclInfo
  pub show_broad_warning : Bool

unfoldable pub start : AclsState
start = record {
  search = "";
  resource_type_filter = "";
  resource_name_filter = "";
  form = empty_acl;
  view_acl = none;
  delete_target = none;
  show_broad_warning = false;
}

-- `queryParams`: the two filters that are given, as `api.acls` takes them.
unfoldable pub query_request : String → AclsState → Request
query_request cluster s =
    acls cluster (some_text (some s.resource_type_filter))
      (some_text (some (trim s.resource_name_filter)))

unfoldable pub is_broad_permission : AclInfo → Bool
is_broad_permission a = a.operation == "ALL" || a.operation == "ANY" || a.resource_name == "*"

-- `submitCreate`
unfoldable pub submit_create : String → AclsState → AclsState × List Effect
submit_create cluster s =
    if is_broad_permission s.form && not s.show_broad_warning
    then (record s { show_broad_warning = true }, [])
    else (s, mutate (create_acl cluster s.form) ∷ [])

-- The form is in a guard. Its button: disabled for a blank principal, and while `create.isPending`.
unfoldable pub press_create : Option User → String → Bool → AclsState → AclsState × List Effect
press_create me cluster pending s = elim (permission_guard me "acl.manage" none any_of) [
  | children ↦
      if clickable (is_blank (trim s.form.principal)) pending
      then submit_create cluster s
      else (s, [])
  | fallback ↦ (s, [])
]

-- The dialog that asks about a broad permission is there while its warning is, in the same guard.
unfoldable pub confirm_broad : Option User → String → Bool → AclsState → AclsState × List Effect
confirm_broad me cluster pending s = elim (permission_guard me "acl.manage" none any_of) [
  | children ↦
      if s.show_broad_warning && clickable false pending
      then (record s { show_broad_warning = false }, mutate (create_acl cluster s.form) ∷ [])
      else (s, [])
  | fallback ↦ (s, [])
]

unfoldable pub close_broad : AclsState → AclsState × List Effect
close_broad s = (record s { show_broad_warning = false }, [])

unfoldable pub created : String → AclsState → AclsState × List Effect
created cluster s = (
  record s { form = empty_acl; show_broad_warning = false },
  toast success "ACL created" ∷ invalidate ("acls" ∷ cluster ∷ []) ∷ [],
)

unfoldable pub create_failed : String → AclsState → AclsState × List Effect
create_failed message s = (s, toast error message ∷ [])

unfoldable pub set_form : AclInfo → AclsState → AclsState × List Effect
set_form a s = (record s { form = a }, [])

-- What the actions of a row do.
pub data RowCommand : Type 0 where
  view : AclInfo → RowCommand
  nothing : RowCommand
  ask_delete : AclInfo → RowCommand

unfoldable pub acl_actions : AclInfo → List (RowAction RowCommand)
acl_actions a =
    action "View" (view a)
    ∷ record (action "Edit" nothing) {
      disabled = true;
      disabled_reason = some "ACLs cannot be edited. Delete and recreate the ACL.";
    }
    ∷ record (action "Delete" (ask_delete a)) { destructive = true }
    ∷ []

-- The menu of a row, in its guard.
unfoldable pub row_menu : Option User → AclInfo → List (RowAction RowCommand)
row_menu me a = elim (permission_guard me "acl.manage" none any_of) [
  | children ↦ acl_actions a
  | fallback ↦ []
]

unfoldable pub run : RowCommand → AclsState → AclsState × List Effect
run (view a) s = (record s { view_acl = some a }, [])
run nothing s = (s, [])
run (ask_delete a) s = (record s { delete_target = some a }, [])

-- The button of the drawer, in its guard, and the end of the drawer.
unfoldable pub press_delete : Option User → AclsState → AclsState × List Effect
press_delete me s = elim s.view_acl [
  | none ↦ (s, [])
  | some a ↦ elim (permission_guard me "acl.manage" none any_of) [
    | children ↦ (record s { delete_target = some a }, [])
    | fallback ↦ (s, [])
  ]
]

unfoldable pub close_drawer : AclsState → AclsState × List Effect
close_drawer s = (record s { view_acl = none }, [])

unfoldable pub confirm_delete : String → Bool → AclsState → AclsState × List Effect
confirm_delete cluster pending s = elim s.delete_target [
  | none ↦ (s, [])
  | some a ↦ if clickable false pending then (s, mutate (delete_acl cluster a) ∷ []) else (s, [])
]

unfoldable pub cancel_delete : AclsState → AclsState × List Effect
cancel_delete s = (record s { delete_target = none }, [])

unfoldable pub deleted : String → AclsState → AclsState × List Effect
deleted cluster s = (
  record s { delete_target = none },
  toast success "ACL deleted" ∷ invalidate ("acls" ∷ cluster ∷ []) ∷ [],
)

unfoldable pub table : Bool → Option String → List AclInfo → AclsState → Body AclInfo
table loading failure acls s =
    table_body loading failure "No ACLs" none (some s.search)
      (some (λ a f.
        has_text (to_lower (a.principal <> (" " <> (a.resource_name <> (" " <> a.resource_type)))))
          (to_lower f)))
      acls
