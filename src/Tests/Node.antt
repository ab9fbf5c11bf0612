-- ===== src/Tests/Node.antt =====
-- Draining and upgrading one node.
pub mod Reconcile
use nodemanager.Common.{Bool, IsRetry, List, Option, Result, [], arith, false, if◌then◌else◌}
use nodemanager.Common.{lookup, ne_of_test, none, ok, pos, refl, second, some, tries, true, ℕ}
use nodemanager.Common.{◌*◌, ◌+◌, ◌/◌, ◌∷◌, ◌≡◌, ◌≢◌, ◌≤◌}
use nodemanager.Api.{ManagedNode, no_facts}
use nodemanager.Node.{
  IsTimely, Op, Outside, Pod, approve, deny, list_pods, read_clock, responded, running, sleep,
}
use nodemanager.Node.Approval.{decide, request_upgrade_approval}
use nodemanager.Node.Cordon.{cordon_node, get_kubernetes_node_or_none, update_status_by}
use nodemanager.Node.Drain.{await_drained, drain_node, drainable, evict_all, is_drainable_pod}
use nodemanager.Node.Drain.Bounds.{SeenDrained, drain_node-SeenDrained, drain_node_total}
use nodemanager.Node.Upgrade.{
  annotation_upgrade_hold, finish_upgrade, group_key, handle_upgrade, in_group, in_window,
  is_agreed, is_recent, last_upgrade_time, leave_cluster, release_turn, run_upgrade, take_turn,
}
use nodemanager.Node.Upgrade.Order.{EndsRebooted, IsRecord, reboot_last, reboots}
use nodemanager.Node.Upgrade.Safety.{Approved, LockGranted, handle_upgrade_cleared, touches}
use nodemanager.Node.Upgrade.Window.{recent_upgrade_waits, upgrade_ahead_of_schedule}

-- Time passes only in sleeps.
abbrev elapsed : List Op → ℕ
elapsed [] = 1000 * second
elapsed (sleep d ∷ h) = elapsed h + d
elapsed (_ ∷ h) = elapsed h

abbrev is_past_listing : List Op → Bool
is_past_listing [] = false
is_past_listing (list_pods name ∷ h) = true
is_past_listing (_ ∷ h) = is_past_listing h

abbrev web : Pod
web = record {
  name = "web";
  namespace = "default";
  deletion_timestamp = none;
  phase = running;
  owner_kinds = "ReplicaSet" ∷ [];
  annotations = [];
}

abbrev pub node : ManagedNode
node = record {
  name = "n1";
  namespace = "nodemanager";
  labels = [];
  annotations = [];
  upgrade = record { group = "workers"; schedule = "0 3 * * *"; delay = "1h" };
  wire_guard = record { enabled = false; interface = "" };
  reconcile_period = "";
  status = record {
    config_sets = [];
    file_backups = [];
    last_file_bucket_gc = none;
    last_upgrade = none;
    kubernetes_node_cordoned = none;
    facts = no_facts;
  };
}

abbrev alone : ManagedNode
alone = record node { upgrade = record { group = ""; schedule = "0 3 * * *"; delay = "1h" } }

abbrev upgraded_before : ManagedNode
upgraded_before = record node {
  status = record {
    config_sets = [];
    file_backups = [];
    last_file_bucket_gc = none;
    last_upgrade = some (900 * second);
    kubernetes_node_cordoned = none;
    facts = no_facts;
  };
}

-- A cluster with one pod, which is gone at the second listing, and an agent that approves.
abbrev pub cluster : Outside
cluster = record {
  has_notifier = true;
  forgiveness_period = 60 * second;
  drain_timeout = 30 * second;
  parse_duration = λ text. ok (pos (3600 * second));
  parse_time = λ text. ok 0;
  cron = λ text. ok (λ t. some (1000 * second));
  retry_on_conflict = λ m. m;
  clock = elapsed;
  is_locked = λ h. false;
  unlock_answer = λ h. ok tt;
  lock_answer = λ h. ok tt;
  subscribed = λ h. true;
  reply = λ h. responded approve;
  kubernetes_node = λ h. ok tt;
  patch_answer = λ h. ok tt;
  pods = λ h. ok (if is_past_listing h then [] else web ∷ []);
  evict_answer = λ h. ok tt;
  node_answer = λ h. ok node;
  update_answer = λ h. ok tt;
  packages_answer = λ h. ok tt;
  system_answer = λ h. ok tt;
  agent_version = "1";
  hostname_answer = λ h. ok "n1";
  info_answer = λ h. record { name = "n1"; machine = "amd64"; os_id = "linux"; os_release = "6" };
  interfaces_answer = λ h. ok [];
  command_answer = λ h. ok "";
  secret_answer = λ h. ok [];
  key_pair = λ h. ok ("private", "public");
  create_answer = λ h. ok tt;
  config_sets = λ h. ok [];
}

abbrev still : Outside
still = record cluster { clock = λ h. 1000 * second }

-- A slot each day, the next one almost a day away, and nobody is asked.
abbrev unasked : Outside
unasked = record cluster {
  has_notifier = false;
  clock = λ h. 1000 * second;
  cron = λ text. ok (λ t. some ((t / 86400000000000 + 1) * 86400000000000));
}

forward : (op : Op) (h : List Op) → elapsed h ≤ elapsed (op ∷ h)
forward (sleep d) h = omega arith
forward _ h = omega arith

cluster-IsTimely : IsTimely cluster
cluster-IsTimely = record { forward = forward; slept = λ d h. omega arith }

cluster-IsRetry : IsRetry cluster.retry_on_conflict
unfolding tries
cluster-IsRetry m h = (0, refl)

drains : (drain_node cluster 7 "n1" []).0 ≡ ok (some tt)
unfolding drain_node evict_all await_drained drainable is_drainable_pod lookup
drains = refl

drain_node_total_example : (drain_node cluster 8 "n1" []).0 ≢ ok none
drain_node_total_example = drain_node_total cluster cluster-IsTimely 7 "n1" [] (omega arith)

drain_node-SeenDrained_example : SeenDrained cluster "n1" (drain_node cluster 7 "n1" []).1
drain_node-SeenDrained_example = drain_node-SeenDrained cluster 7 "n1" [] drains

runs : Outside → ManagedNode → Result (Option ℕ) × List Op
unfolding handle_upgrade release_turn is_recent in_window is_agreed take_turn
    request_upgrade_approval decide run_upgrade finish_upgrade leave_cluster cordon_node
    update_status_by get_kubernetes_node_or_none drain_node evict_all await_drained drainable
    is_drainable_pod lookup last_upgrade_time
runs o n = handle_upgrade o n 7 []

upgrades_once : (touches (runs cluster node).1 ≡ 3) × (reboots (runs cluster node).1 ≡ 1)
unfolding runs
upgrades_once = (refl, refl)

denied : touches (runs (record cluster { reply = λ h. responded deny }) node).1 ≡ 0
unfolding runs
denied = refl

upgrades_once_touches : touches (handle_upgrade cluster node 7 []).1 ≢ 0
unfolding runs
upgrades_once_touches = omega arith

handle_upgrade_cleared_example :
    (lookup annotation_upgrade_hold node.annotations ≡ none)
    × (node.upgrade.schedule ≢ "")
    × (node.upgrade.delay ≢ "")
    × ((before : List Op) × (handle_upgrade cluster node 7 [] ≡ run_upgrade cluster node 7 before)
        × (touches before ≡ 0)
        × (cluster.has_notifier ≡ true → Approved cluster before)
        × (in_group cluster node ≡ true → LockGranted cluster (group_key cluster node) before))
handle_upgrade_cleared_example = handle_upgrade_cleared cluster node 7 upgrades_once_touches

upgrades_once_reboots : reboots (handle_upgrade cluster node 7 []).1 ≢ 0
unfolding runs
upgrades_once_reboots = omega arith

reboot_last_example : EndsRebooted cluster node 0 (handle_upgrade cluster node 7 []).1
reboot_last_example = reboot_last cluster cluster-IsRetry node 7 upgrades_once_reboots

upgrade_ahead_of_schedule_example :
    handle_upgrade unasked alone 7 []
    ≡ run_upgrade unasked alone 7 (read_clock ∷ read_clock ∷ read_clock ∷ [])
unfolding lookup last_upgrade_time
upgrade_ahead_of_schedule_example =
    upgrade_ahead_of_schedule unasked alone 7 (pos (3600 * second))
      (λ t. some ((t / 86400000000000 + 1) * 86400000000000)) 86400000000000 refl
      (ne_of_test _ _ refl) (ne_of_test _ _ refl) refl refl refl refl refl refl (λ h. omega arith)

recent_upgrade_waits_example : touches (handle_upgrade still upgraded_before 7 []).1 ≡ 0
unfolding last_upgrade_time
recent_upgrade_waits_example =
    recent_upgrade_waits still upgraded_before 7 (pos (3600 * second)) (900 * second) refl refl
      (λ h. refl)
