-- ===== src/Pages/Acls/Detail.antt =====
-- What the page of ACLs shows of one, and its form (frontend/src/pages/ACLsPage.tsx).
use kafkaesque.Prelude.Texts.{some_text}
use kafkaesque.Pages.Acls.{is_broad_permission, AclsState}
use kafkaesque.Api.Types.{AclInfo}
use Prim.Native.String.{◌++◌ as ◌<>◌}
use kafkaesque.Prelude.{
  map, if◌then◌else◌, none, Option, [], refl, or_else, ◌∷◌, ◌≡◌, List, String, some,
}

abbrev or_star : String → String
or_star s = or_else (some_text (some s)) "*"

-- Label and text of the fields of the drawer, `ACLDetail`.
unfoldable pub acl_detail : AclInfo → List (String × String)
acl_detail a =
    ("Principal", a.principal)
    ∷ ("Host", or_star a.host)
    ∷ ("Pattern type", a.pattern_type)
    ∷ ("Resource", a.resource_type <> (":" <> or_star a.resource_name))
    ∷ ("Operation", a.operation)
    ∷ ("Permission", a.permission_type)
    ∷ []

unfoldable pub operations : List String
operations =
    "READ" ∷ "WRITE" ∷ "CREATE" ∷ "DELETE" ∷ "ALTER" ∷ "DESCRIBE" ∷ "CLUSTER_ACTION"
    ∷ "DESCRIBE_CONFIGS" ∷ "ALTER_CONFIGS" ∷ "IDEMPOTENT_WRITE" ∷ "ALL" ∷ "ANY" ∷ []

unfoldable pub resource_types : List String
resource_types = "TOPIC" ∷ "GROUP" ∷ "CLUSTER" ∷ "TRANSACTIONAL_ID" ∷ "DELEGATION_TOKEN" ∷ []

unfoldable pub pattern_types : List String
pattern_types = "LITERAL" ∷ "PREFIXED" ∷ "MATCH" ∷ "ANY" ∷ []

unfoldable pub permission_types : List String
permission_types = "ALLOW" ∷ "DENY" ∷ []

-- The fields of the form, each of which sets its own.
pub data Field : Type 0 where
  principal host resource_type resource_name pattern_type operation permission_type : Field

unfoldable pub type_field : Field → String → AclInfo → AclInfo
type_field principal v a = record a { principal = v }
type_field host v a = record a { host = v }
type_field resource_type v a = record a { resource_type = v }
type_field resource_name v a = record a { resource_name = v }
type_field pattern_type v a = record a { pattern_type = v }
type_field operation v a = record a { operation = v }
type_field permission_type v a = record a { permission_type = v }

-- The cells of a row: principal, host, resource, operation, permission.
unfoldable pub acl_cells : AclInfo → List String
acl_cells a =
    a.principal
    ∷ or_star a.host
    ∷ (a.resource_type <> (":" <> (or_star a.resource_name <> ("(" <> (a.pattern_type <> ")")))))
    ∷ a.operation
    ∷ a.permission_type
    ∷ []

-- The key of a row.
unfoldable pub row_key : AclInfo → String
row_key a =
    a.principal
    <> ("-"
        <> (a.resource_type
            <> ("-" <> (a.resource_name <> ("-" <> (a.operation <> ("-" <> a.host)))))))

-- The key of a row says nothing of the permission and the pattern: an ACL that allows and one that
-- denies the same have one key.
pub row_key-permission :
    (a : AclInfo) (permission pattern : String)
    → row_key (record a { permission_type = permission; pattern_type = pattern }) ≡ row_key a
unfolding row_key
row_key-permission a permission pattern = refl

-- The search above the table, and the button beside it.
unfoldable pub type_search : String → AclsState → AclsState
type_search text s = record s { search = text }

unfoldable pub select : AclInfo → AclsState → AclsState
select a s = record s { view_acl = some a }

-- The choices of the filter by resource type, value and text, and the two other filters.
unfoldable pub filter_types : List (String × String)
filter_types = ("", "All types") ∷ map (λ t. (t, t)) resource_types

unfoldable pub choose_resource_type : String → AclsState → AclsState
choose_resource_type t s = record s { resource_type_filter = t }

unfoldable pub type_resource_name : String → AclsState → AclsState
type_resource_name text s = record s { resource_name_filter = text }

-- The line below the form.
unfoldable pub broad_note : AclInfo → Option String
broad_note a =
    if is_broad_permission a
    then some (
        "Broad permission: "
        <> (a.operation
            <> (" on "
                <> (a.resource_type
                    <> (":"
                        <> (or_star a.resource_name
                            <> " grants wide access. Confirm only if this is intentional."))))))
    else none
