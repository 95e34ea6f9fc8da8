-- ===== src/Api/Types.antt =====
-- The records of frontend/src/api/client.ts. A number is a natural number; an optional field is an
-- `Option`; a closed union of texts is a data type.
use kafkaesque.Prelude.{ℕ, Bool, Option, List, String}

pub record User : Type 0 where
  pub id : String
  pub email : String
  pub display_name : String
  pub role : String
  pub is_active : Option Bool
  pub last_login_at : Option String
  pub password_changed_at : Option String
  pub created_at : Option String
  pub permissions : Option (List String)

pub record PlatformUser : Type 0 where
  pub user : User
  pub open user use *
  pub updated_at : Option String

pub record RoleRecord : Type 0 where
  pub id : String
  pub name : String
  pub description : String
  pub permissions : List String
  pub is_system : Bool
  pub user_count : Option ℕ
  pub created_at : Option String
  pub updated_at : Option String

pub record PermissionRecord : Type 0 where
  pub id : String
  pub category : String
  pub action : String
  pub description : String

pub record PermissionGroup : Type 0 where
  pub category : String
  pub permissions : List PermissionRecord

pub record Cluster : Type 0 where
  pub id : String
  pub name : String
  pub bootstrap_servers : String
  pub environment : String
  pub status : String
  pub kafka_version : Option String
  pub last_error : Option String
  pub schema_registry_url : Option String
  pub connect_url : Option String
  pub tls : Option Bool
  pub sasl_mechanism : Option String
  pub last_connected_at : Option String
  pub created_at : Option String

pub record ClusterCreateBody : Type 0 where
  pub name : String
  pub bootstrap_servers : String
  pub environment : String
  pub tls : Option Bool
  pub sasl_mechanism : Option String
  pub sasl_username : Option String
  pub sasl_password : Option String
  pub kafka_version : Option String
  pub schema_registry_url : Option String
  pub connect_url : Option String

pub record ConnectorTask : Type 0 where
  pub id : ℕ
  pub state : String
  pub worker_id : Option String

pub record ConnectorInfo : Type 0 where
  pub name : String
  pub state : String
  pub kind : Option String
  pub config : Option (List (String × String))
  pub tasks : Option (List ConnectorTask)

pub record PartitionInfo : Type 0 where
  pub topic : String
  pub partition : ℕ
  pub leader : ℕ
  pub replicas : List ℕ
  pub isr : List ℕ
  pub begin_offset : ℕ
  pub end_offset : ℕ
  pub message_count : ℕ
  pub under_replicated : Bool

pub record AclInfo : Type 0 where
  pub principal : String
  pub host : String
  pub operation : String
  pub permission_type : String
  pub resource_type : String
  pub resource_name : String
  pub pattern_type : String

pub record AlertRule : Type 0 where
  pub id : String
  pub cluster_id : String
  pub name : String
  pub rule_type : String
  pub threshold : ℕ
  pub enabled : Bool
  pub created_at : Option String

pub record AlertEvent : Type 0 where
  pub id : String
  pub rule_id : String
  pub cluster_id : String
  pub severity : String
  pub message : String
  pub status : String
  pub created_at : String
  pub resolved_at : Option String

pub data SearchType : Type 0 where
  cluster topic consumer_group broker : SearchType

pub record SearchResult : Type 0 where
  pub kind : SearchType
  pub id : String
  pub label : String
  pub cluster_id : Option String

pub record TestConnectionResult : Type 0 where
  pub connected : Bool
  pub error : Option String
  pub broker_count : Option ℕ
  pub topic_count : Option ℕ
  pub partition_count : Option ℕ
  pub kafka_version : Option String

pub record Broker : Type 0 where
  pub id : ℕ
  pub host : String
  pub port : ℕ
  pub rack : Option String
  pub is_controller : Bool
  pub partition_count : ℕ

pub record Topic : Type 0 where
  pub name : String
  pub partitions : ℕ
  pub replication_factor : ℕ
  pub internal : Bool

pub record ConsumerGroup : Type 0 where
  pub group_id : String
  pub state : String
  pub members : ℕ
  pub topics : ℕ
  pub total_lag : ℕ
  pub max_lag : ℕ

pub record Message : Type 0 where
  pub topic : String
  pub partition : ℕ
  pub offset : ℕ
  pub timestamp : String
  pub key : Option String
  pub value : String
  pub headers : Option (List (String × String))

pub data MessagesMode : Type 0 where
  tail lookup : MessagesMode

pub record MessagesResponse : Type 0 where
  pub items : List Message
  pub mode : Option MessagesMode
  pub has_more : Option Bool
  pub cursor : Option String
