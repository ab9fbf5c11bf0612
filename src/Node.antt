-- ===== src/Node.antt =====
-- internal/controller/common/managednode_controller.go: the calls that the reconciler of a
-- ManagedNode makes, and what answers them. Its methods are in the modules below.
pub mod Drain
pub mod Cordon
pub mod Approval
pub mod Quiet
pub mod Upgrade
pub mod Labels
pub mod Status
pub mod Migrate
pub mod Prune
pub mod Reconcile
use nodemanager.Common.{Bool, Dict, Duration, Error, Io, List, Option, Result, String, ℕ, ◌+◌}
use nodemanager.Common.{◌∷◌, ◌≤◌}
use nodemanager.Api.{ConfigSet, ManagedNode, NamespacedName}

-- The id `upgrade-<node>-<unix seconds>`, by its two parts.
pub record EventId : Type 0 where
  pub node : String
  pub unix : ℕ

pub data Action : Type 0 where
  approve deny delay unspecified : Action

-- How the `select` of `requestUpgradeApproval` ends.
pub data Reply : Type 0 where
  responded : Action → Reply
  deadline_reached : Reply
  cancelled : Error → Reply

-- The payload of a `notificationv1.Event`.
pub data Event : Type 0 where
  upgrade_approval_request : (id : EventId) (schedule deadline : ℕ) → Event
  upgrade_started : (description : String) → Event
  upgrade_completed : (success reboot_pending : Bool) → Event

-- The part of a `corev1.Pod` that draining looks at.
pub data Phase : Type 0 where
  pending running succeeded failed unknown : Phase

pub record Pod : Type 0 where
  pub name : String
  pub namespace : String
  pub deletion_timestamp : Option ℕ
  pub phase : Phase
  pub owner_kinds : List String
  pub annotations : Dict String

-- What the node handler says of the machine.
pub record NodeInfo : Type 0 where
  pub name : String
  pub machine : String
  pub os_id : String
  pub os_release : String

-- An address of an interface; an address that has no IP is `none` in the lists of these.
pub record HostAddress : Type 0 where
  pub text : String
  pub is_ipv4 : Bool
  pub is_global_unicast : Bool

pub record HostInterface : Type 0 where
  pub name : String
  pub is_loopback : Bool
  pub is_up : Bool
  pub addrs : Result (List (Option HostAddress))

-- One call of the reconciler to the outside.
pub data Op : Type 0 where
  read_clock : Op
  locked : NamespacedName → Op
  unlock : NamespacedName → Op
  lock_for : NamespacedName → Duration → Op
  has_subscribers : Op
  wait_for_approval : EventId → Op
  cancel_approval : EventId → Op
  notify : Event → Op
  await_reply : Op
  get_kubernetes_node : String → Op
  patch_unschedulable : String → Bool → Op
  list_pods : String → Op
  evict : String → String → Op
  sleep : ℕ → Op
  get_node : NamespacedName → Op
  update_node : ManagedNode → Op
  update_status : ManagedNode → Op
  upgrade_packages : Op
  upgrade_system : Op
  reboot : Op
  hostname : Op
  node_info : Op
  net_interfaces : Op
  run_command : String → List String → Op
  get_secret : NamespacedName → Op
  generate_key_pair : Op
  create_secret : NamespacedName → (private_key public_key : String) → Op
  list_config_sets : String → Op

-- What the outside answers after the calls so far. `cron` parses an expression into its `Next`,
-- with `none` for the zero time, and `retry_on_conflict` is client-go's.
pub record Outside : Type 0 where
  pub has_notifier : Bool
  pub forgiveness_period : ℕ
  pub drain_timeout : ℕ
  pub parse_duration : String → Result Duration
  pub parse_time : String → Result ℕ
  pub cron : String → Result (ℕ → Option ℕ)
  pub retry_on_conflict : Io Op (Unit {0}) → Io Op (Unit {0})
  pub clock : List Op → ℕ
  pub is_locked : List Op → Bool
  pub unlock_answer : List Op → Result (Unit {0})
  pub lock_answer : List Op → Result (Unit {0})
  pub subscribed : List Op → Bool
  pub reply : List Op → Reply
  pub kubernetes_node : List Op → Result (Unit {0})
  pub patch_answer : List Op → Result (Unit {0})
  pub pods : List Op → Result (List Pod)
  pub evict_answer : List Op → Result (Unit {0})
  pub node_answer : List Op → Result ManagedNode
  pub update_answer : List Op → Result (Unit {0})
  pub packages_answer : List Op → Result (Unit {0})
  pub system_answer : List Op → Result (Unit {0})
  pub agent_version : String
  pub hostname_answer : List Op → Result String
  pub info_answer : List Op → NodeInfo
  pub interfaces_answer : List Op → Result (List HostInterface)
  pub command_answer : List Op → Result String
  pub secret_answer : List Op → Result (Dict String)
  pub key_pair : List Op → Result (String × String)
  pub create_answer : List Op → Result (Unit {0})
  pub config_sets : List Op → Result (List ConfigSet)

-- Time does not run backwards, and `time.Sleep(d)` takes at least `d`.
pub record IsTimely (o : Outside) : Type 0 where
  pub forward : (op : Op) (h : List Op) → o.clock h ≤ o.clock (op ∷ h)
  pub slept : (d : ℕ) (h : List Op) → o.clock h + d ≤ o.clock (sleep d ∷ h)
