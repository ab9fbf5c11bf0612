-- ===== src/JailController.antt =====
-- internal/controller/freebsd/jail_controller.go: the reconciler of a Jail. The manager of jails
-- and the lock are interfaces in the code too, so their methods are calls to the outside here.
-- Metrics and log lines are left out.
pub mod Update
pub mod Reconcile
mod Steps
mod Phases
pub mod Safety
pub mod Restart
use nodemanager.Common.{Bool, Duration, Io, List, Option, Result, String, [], any}
use nodemanager.Common.{if◌then◌else◌, none, perform, ℕ, ◌++◌, ◌==◌, ◌>>=◌, ◌>>◌, ◌∷◌}
use nodemanager.Api.{Condition, NamespacedName}
use nodemanager.Jail.{Jail, JailSpec, JailTemplateSpec}
use nodemanager.Jail.Merge.{merge_template_defaults}

abbrev pub jail_finalizer : String
jail_finalizer = "freebsd.nodemanager/finalizer"

abbrev pub cond_available : String
cond_available = "Available"

abbrev pub cond_degraded : String
cond_degraded = "Degraded"

abbrev pub cond_progressing : String
cond_progressing = "Progressing"

pub record JailStatus : Type 0 where
  pub conditions : List Condition
  pub release : String
  pub last_update : Option ℕ
  pub post_create_done : Option ℕ

-- A Jail as the API server holds it: what its manager reads, and the rest.
pub record JailResource : Type 0 where
  pub jail : Jail
  pub namespace : String
  pub generation : ℕ
  pub finalizers : List String
  pub deletion_timestamp : Option ℕ
  pub node_name : String
  pub template_ref : String
  pub deletion_protection : Bool
  pub reconcile_period : String
  pub status : JailStatus

pub record PostCreateCommand : Type 0 where
  pub name : String
  pub command : String
  pub args : List String

pub record JailTemplate : Type 0 where
  pub defaults : JailTemplateSpec
  pub post_create : List PostCreateCommand

pub data Op : Type 0 where
  read_clock : Op
  get_jail : NamespacedName → Op
  update_jail : JailResource → Op
  update_status : JailResource → Op
  get_template : NamespacedName → Op
  list_jails : (namespace : String) → Op
  delete_jail : Jail → Op
  ensure_jail : Jail → Op
  is_running : (jail : String) → Op
  start_jail : (jail : String) → Op
  stop_jail : (jail : String) → Op
  update_root : (jail : String) → Op
  bootstrap_pkg : (jail : String) → Op
  exec_in_jail : (jail command : String) (args : List String) → Op
  installed_release : (jail : String) → Op
  locked : NamespacedName → Op
  unlock : NamespacedName → Op
  lock_for : NamespacedName → Duration → Op

-- What the outside answers. `set_status_condition` is apimachinery's.
pub record Outside : Type 0 where
  pub hostname : String
  pub parse_duration : String → Result Duration
  pub cron : String → Result (ℕ → Option ℕ)
  pub retry_on_conflict : Io Op (Unit {0}) → Io Op (Unit {0})
  pub set_status_condition : Condition → List Condition → List Condition
  pub clock : List Op → ℕ
  pub jail_answer : List Op → Result JailResource
  pub write_answer : List Op → Result (Unit {0})
  pub template_answer : List Op → Result JailTemplate
  pub jails_answer : List Op → Result (List JailResource)
  pub manager_answer : List Op → Result (Unit {0})
  pub running_answer : List Op → Result Bool
  pub release_answer : List Op → Result String
  pub is_locked : List Op → Bool
  pub unlock_answer : List Op → Result (Unit {0})
  pub lock_answer : List Op → Result (Unit {0})

-- The `RequeueAfter` of a `ctrl.Result`.
abbrev pub Requeue : Type 0
Requeue = Option Duration

abbrev pub contains : String → List String → Bool
contains s = any (λ t. t == s)

-- `controllerutil.AddFinalizer` and `RemoveFinalizer`
abbrev pub remove_all : String → List String → List String
remove_all s [] = []
remove_all s (t ∷ ts) = let rest = remove_all s ts in if t == s then rest else t ∷ rest

abbrev pub add_finalizer : JailResource → JailResource
add_finalizer j = record j { finalizers = j.finalizers ++ jail_finalizer ∷ [] }

abbrev pub remove_finalizer : JailResource → JailResource
remove_finalizer j = record j { finalizers = remove_all jail_finalizer j.finalizers }

module _ (o : Outside) where
  abbrev pub set_condition : String → Bool → String → String → JailResource → JailResource
  set_condition type value reason message j = record j {
    status = record j.status {
      conditions =
          o.set_status_condition
            (record {
              condition_type = type;
              is_true = value;
              reason = reason;
              message = message;
              last_transition_time = none;
              observed_generation = j.generation;
            })
            j.status.conditions;
    };
  }

  unfoldable pub update_status_with_retry :
      NamespacedName → (JailResource → JailResource) → Io Op (Unit {0})
  update_status_with_retry key mutate = o.retry_on_conflict (do
    fresh ← perform (get_jail key) o.jail_answer
    perform (update_status (mutate fresh)) o.write_answer)
