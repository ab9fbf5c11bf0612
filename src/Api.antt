-- ===== src/Api.antt =====
-- api/common/v1: the resources of the common controllers, with the fields that the modelled code
-- reads or writes.
use nodemanager.Common.{Bool, Dict, List, Option, String, [], false, ℕ}

-- `types.NamespacedName`
pub record NamespacedName : Type 0 where
  pub namespace : String
  pub name : String

pub record Upgrade : Type 0 where
  pub group : String
  pub schedule : String
  pub delay : String

pub record ConfigSetApplyStatus : Type 0 where
  pub name : String
  pub resource_version : String
  pub last_applied : ℕ
  pub error : String
  pub conflicts : List String

pub record WireGuardSpec : Type 0 where
  pub enabled : Bool
  pub interface : String

pub record NetworkInterface : Type 0 where
  pub ipv4 : List String
  pub ipv6 : List String

pub record WireGuardInterface : Type 0 where
  pub name : String
  pub public_key : String
  pub listen_port : ℕ

pub record SshHostKey : Type 0 where
  pub algorithm : ℕ
  pub fingerprint_type : ℕ
  pub fingerprint : String

-- The part of the status that says what the machine is. A nil map or slice is empty.
pub record NodeFacts : Type 0 where
  pub agent_version : String
  pub release : String
  pub interfaces : Dict NetworkInterface
  pub ssh_host_keys : List SshHostKey
  pub wire_guard : List WireGuardInterface
  pub jailed : Bool

abbrev pub no_facts : NodeFacts
no_facts = record {
  agent_version = "";
  release = "";
  interfaces = [];
  ssh_host_keys = [];
  wire_guard = [];
  jailed = false;
}

-- A nil `*metav1.Time` is `none`.
pub record ManagedNodeStatus : Type 0 where
  pub config_sets : List ConfigSetApplyStatus
  pub file_backups : Dict String
  pub last_file_bucket_gc : Option ℕ
  pub last_upgrade : Option ℕ
  pub kubernetes_node_cordoned : Option ℕ
  pub facts : NodeFacts

pub record ManagedNode : Type 0 where
  pub name : String
  pub namespace : String
  pub labels : Dict String
  pub annotations : Dict String
  pub upgrade : Upgrade
  pub wire_guard : WireGuardSpec
  pub reconcile_period : String
  pub status : ManagedNodeStatus

-- configset_types.go
pub record Package : Type 0 where
  pub ensure : String
  pub name : String
  pub version : String

pub record Service : Type 0 where
  pub enable : Bool
  pub ensure : String
  pub name : String
  pub subscribe_files : List String
  pub arguments : String
  pub user : String
  pub lock_group : String

pub record File : Type 0 where
  pub content : String
  pub ensure : String
  pub target : String
  pub group : String
  pub mode : String
  pub owner : String
  pub path : String
  pub template : String
  pub secret_refs : List String
  pub config_map_refs : List String
  pub create_only : Bool
  pub purge : Bool

pub record Exec : Type 0 where
  pub command : String
  pub args : List String
  pub subscribe_files : List String

pub record NotifyRef : Type 0 where
  pub api_version : String
  pub kind : String
  pub name : String
  pub namespace : String

pub record ConfigSetSpec : Type 0 where
  pub files : List File
  pub packages : List Package
  pub services : List Service
  pub executions : List Exec
  pub notifies : List NotifyRef

-- `metav1.Condition`; a status that is true is `true`, and a time that is not set is `none`.
pub record Condition : Type 0 where
  pub condition_type : String
  pub is_true : Bool
  pub reason : String
  pub message : String
  pub last_transition_time : Option ℕ
  pub observed_generation : ℕ

pub record ConfigSet : Type 0 where
  pub name : String
  pub namespace : String
  pub labels : Dict String
  pub resource_version : String
  pub generation : ℕ
  pub spec : ConfigSetSpec
  pub conditions : List Condition
