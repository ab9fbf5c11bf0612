-- ===== src/ConfigSet.antt =====
-- internal/controller/common/configset_controller.go: the calls that the reconciler of a ConfigSet
-- makes, and what answers them. Its methods are in the modules below.
pub mod Conflicts
pub mod Packages
pub mod Services
pub mod Executions
pub mod Files
pub mod Records
pub mod Conditions
pub mod Notify
pub mod Apply
pub mod Reconcile
pub mod Watches
pub mod Collection
use nodemanager.Common.{Bool, Dict, Duration, Io, List, Option, Result, String, ℕ}
use nodemanager.Api.{Condition, ConfigSet, File, ManagedNode, NamespacedName}

pub data ServiceStatus : Type 0 where
  unknown running stopped : ServiceStatus

-- The metadata of a resource of any kind that is to be notified.
pub record Target : Type 0 where
  pub key : NamespacedName
  pub annotations : Dict String

-- One call to the outside. A call of a service handler names the user of its context.
pub data Op : Type 0 where
  list_config_sets : String → Op
  list_packages : Op
  install : (name version : String) → Op
  remove_package : String → Op
  enable disable status start stop restart : (user name : String) → Op
  set_arguments : (user name arguments : String) → Op
  lock unlock : NamespacedName → Op
  run_command : String → List String → Op
  read_clock hostname : Op
  collect_data : File → Op
  build_template : String → Op
  stat read_file read_link os_remove remove_file read_dir : String → Op
  save_to_file_bucket : String → Op
  write_content : (path content : String) → Op
  chown : (path owner group : String) → Op
  set_mode : (path mode : String) → Op
  mkdir : (path mode : String) → Op
  symlink : (target path : String) → Op
  get_node : NamespacedName → Op
  update_status : ManagedNode → Op
  create_node : ManagedNode → Op
  read_context : Op
  get_config_set : NamespacedName → Op
  update_config_set : ConfigSet → Op
  get_target : (api_version kind : String) → NamespacedName → Op
  list_targets : (api_version kind namespace : String) → Op
  update_target : (api_version kind : String) → Target → Op
  collect_garbage : Op

pub data Stat : Type 0 where
  present : (is_dir : Bool) (size : ℕ) → Stat
  missing : Stat
  unreadable : Stat

-- An entry of a directory.
pub record Entry : Type 0 where
  pub name : String
  pub is_dir : Bool

pub record Outside : Type 0 where
  pub retry_on_conflict : Io Op (Unit {0}) → Io Op (Unit {0})
  pub config_sets : List Op → Result (List ConfigSet)
  pub packages_answer : List Op → Result (Dict String)
  pub package_answer : List Op → Result (Unit {0})
  pub service_answer : List Op → Result (Unit {0})
  pub service_status : List Op → ServiceStatus
  pub lock_answer : List Op → Result (Unit {0})
  pub unlock_answer : List Op → Result (Unit {0})
  pub command_answer : List Op → Result (Unit {0})
  pub clock : List Op → ℕ
  pub hostname_answer : List Op → Result String
  pub node_answer : List Op → Result ManagedNode
  pub update_answer : List Op → Result (Unit {0})
  pub file_bucket_enabled : Bool
  pub max_file_size : ℕ
  pub stat_answer : List Op → Stat
  pub text_answer : List Op → Result String
  pub changed_answer : List Op → Result Bool
  pub remove_answer : List Op → Bool × Result (Unit {0})
  pub done_answer : List Op → Result (Unit {0})
  pub is_mode : String → Result (Unit {0})
  pub entries_answer : List Op → Result (List Entry)
  pub is_cancelled : List Op → Bool
  pub config_set_answer : List Op → Result ConfigSet
  pub create_answer : List Op → Result (Unit {0})
  pub target_answer : List Op → Result Target
  pub targets_answer : List Op → Result (List Target)
  pub decimal : ℕ → String
  pub list_text : List String → String
  pub find_status_condition : String → List Condition → Option Condition
  pub set_status_condition : Condition → List Condition → List Condition
  pub reconcile_period : Duration
  pub namespace : String
  pub file_bucket_max_age : Duration
