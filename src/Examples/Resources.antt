-- ===== src/Examples/Resources.antt =====
-- Topics, ACLs and the paths of requests.
use kafkaesque.Auth.Guards.{can}
use kafkaesque.Ui.Table.{RowAction, clickable, action}
use kafkaesque.Prelude.Texts.{is_blank, trim_end, trim_start, trim}
use kafkaesque.Ui.{mutate, sent}
use kafkaesque.Prelude.{
  some, String, ◌||◌, not, ◌∷◌, ◌⊎◌, Memᴰ, [], refl, List, false, none, true, ◌≡◌,
}
use kafkaesque.Pages.Topics
use kafkaesque.Pages.Topics.Laws as TopicsLaws
use kafkaesque.Pages.Acls
use kafkaesque.Pages.Acls.Laws as AclsLaws
use kafkaesque.Api.Client.{
  messages, live_tail_url, in_cluster, delete_topic, partitions, publish, create_acl,
}
use kafkaesque.Api.Json.{Json}
use kafkaesque.Api.Encode.{search_params}
use Prim.Native.String.{◌++◌ as ◌<>◌}
use kafkaesque.Api.Paths.{topic_paths, slash, count_of}
use kafkaesque.Api.Types.{User, Topic, AclInfo}

abbrev orders : Topic
orders = record { name = "orders"; partitions = 3; replication_factor = 1; internal = false }

abbrev delete_entry : RowAction Topics.RowCommand
delete_entry = record (action "Delete" (Topics.RowCommand.ask_delete "orders")) {
  destructive = true;
}

delete_entry_mem : Memᴰ delete_entry (Topics.topic_actions orders)
unfolding Topics.topic_actions Topics.can_delete_topic Topics.is_internal_topic
delete_entry_mem = Memᴰ.tail (Memᴰ.tail (Memᴰ.tail (Memᴰ.tail (Memᴰ.head refl))))

abbrev listed : List Topic
listed = orders ∷ []

abbrev asked : List (TopicsLaws.Event listed)
asked = TopicsLaws.Event.pressed orders (Memᴰ.head refl) delete_entry delete_entry_mem ∷ []

deletion_sent :
    Memᴰ
      (mutate (delete_topic "c1" "orders"))
      (TopicsLaws.on_event listed "c1"
        (TopicsLaws.Event.confirmed false)
        (TopicsLaws.on_events listed "c1" asked Topics.start)).1
unfolding TopicsLaws.on_event TopicsLaws.on_events Topics.run Topics.confirm_delete clickable
deletion_sent = Memᴰ.head refl

sends-IsDeletable_example :
    (name : String) × (delete_topic "c1" "orders" ≡ delete_topic "c1" name)
    × TopicsLaws.IsDeletable listed name
sends-IsDeletable_example =
    TopicsLaws.sends-IsDeletable listed "c1" asked (TopicsLaws.Event.confirmed false)
      (delete_topic "c1" "orders") deletion_sent

topic_paths_example :
    (count_of 47 (delete_topic "c1" "a/b").path ≡ count_of 47 (in_cluster "c1" "/topics/"))
    × (count_of 47 (partitions "c1" "a/b").path
        ≡ count_of 47 (in_cluster "c1" "/topics//partitions"))
    × (count_of 47 (publish "c1" "a/b" Json.null).path
        ≡ count_of 47 (in_cluster "c1" "/topics//messages"))
    × (count_of 47 (messages "c1" "a/b" (("limit", "50") ∷ [])).path
        ≡ count_of 47 (
            in_cluster "c1" ("/topics/" <> ("/messages?" <> search_params (("limit", "50") ∷ [])))))
    × (count_of 47 (live_tail_url (some "t1") true "localhost" "c1" "a/b" none)
        ≡ count_of 47 (live_tail_url (some "t1") true "localhost" "c1" "" none))
topic_paths_example =
    topic_paths "c1" "a/b" Json.null (("limit", "50") ∷ []) (some "t1") true "localhost" none slash

abbrev all_rights : AclInfo
all_rights = record {
  principal = "User:pat";
  host = "*";
  operation = "ALL";
  permission_type = "ALLOW";
  resource_type = "TOPIC";
  resource_name = "*";
  pattern_type = "LITERAL";
}

abbrev filled : Acls.AclsState
filled = record {
  search = "";
  resource_type_filter = "";
  resource_name_filter = "";
  form = all_rights;
  view_acl = none;
  delete_target = none;
  show_broad_warning = false;
}

-- Somebody who may manage ACLs.
abbrev quin : User
quin = record {
  id = "u6";
  email = "quin@example.org";
  display_name = "Quin";
  role = "SUPPORT";
  is_active = some true;
  last_login_at = none;
  password_changed_at = none;
  created_at = none;
  permissions = some ("acl.manage" ∷ []);
}

creates-broad_example :
    let requests =
      sent (AclsLaws.on_event (some quin) "c1" (AclsLaws.Event.submitted false) filled).1 in
    (requests ≡ [])
    ⊎ ((requests ≡ create_acl "c1" all_rights ∷ [])
        × (can (some quin) "acl.manage" ≡ true)
        × ((not (Acls.is_broad_permission all_rights) || false) ≡ true))
creates-broad_example =
    AclsLaws.creates-broad (some quin) "c1" (AclsLaws.Event.submitted false) filled

filled_broad : Acls.is_broad_permission all_rights ≡ true
unfolding Acls.is_broad_permission
filled_broad = refl

filled_named : is_blank (trim "User:pat") ≡ false
unfolding trim trim_start trim_end
filled_named = refl
