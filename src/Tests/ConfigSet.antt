-- ===== src/Tests/ConfigSet.antt =====
-- One node and its ConfigSets.
pub mod Apply
use nodemanager.Common.{All, Dict, List, String, [], false, for_each, if◌then◌else◌, inl, inr}
use nodemanager.Common.{is_empty, lookup, none, ok, pos, refl, texts, true, ◌==◌, ◌↔◌, ◌∷◌, ◌≡◌}
use nodemanager.Api.{
  ConfigSet, ConfigSetApplyStatus, Exec, File, ManagedNode, Package, Service, no_facts,
}
use nodemanager.ConfigSet.{Entry, Op, Outside, list_packages, missing, stopped}
use nodemanager.ConfigSet.Conflicts.{
  Claimed, Unclaimed, detect_conflicts, detect_conflicts_iff, keys_of,
}
use nodemanager.ConfigSet.Executions.{
  AllSucceed, AreWanted, commands_after, handle_executions, handle_executions_all, run_exec,
}
use nodemanager.ConfigSet.Files.Managed.{purge_directory}
use nodemanager.ConfigSet.Files.Purge.{IsClean, is_declared, purge_spares, removals}
use nodemanager.ConfigSet.Packages.{
  AsWanted, IsDone, handle_package_set, package_ensure_from_string, package_step,
  packages_without_error, settled_packages_stay,
}
use nodemanager.ConfigSet.Services.{Balanced, handle_service_set, handle_service_set-Balanced}
use nodemanager.Labels.{
  Has, any_of, label_gate, match_all_labels, match_all_labels_iff, match_each, none_match,
}

abbrev linux : Dict String
linux = ("kubernetes.io/os", "linux") ∷ []

abbrev pub node : ManagedNode
node = record {
  name = "n1";
  namespace = "nodemanager";
  labels = linux;
  annotations = [];
  upgrade = record { group = ""; schedule = ""; delay = "" };
  wire_guard = record { enabled = false; interface = "" };
  reconcile_period = "";
  status = record {
    config_sets = [];
    file_backups = [];
    last_file_bucket_gc = none;
    last_upgrade = none;
    kubernetes_node_cordoned = none;
    facts = no_facts;
  };
}

abbrev motd : File
motd = record {
  content = "hello";
  ensure = "file";
  target = "";
  group = "root";
  mode = "0644";
  owner = "root";
  path = "/etc/motd.d/10";
  template = "";
  secret_refs = [];
  config_map_refs = [];
  create_only = false;
  purge = false;
}

abbrev ssh : Service
ssh = record {
  enable = true;
  ensure = "running";
  name = "sshd";
  subscribe_files = "/etc/ssh/sshd_config" ∷ [];
  arguments = "-D";
  user = "";
  lock_group = "ssh";
}

abbrev pub vim : Package
vim = record { ensure = "installed"; name = "vim"; version = "9" }

abbrev nano : Package
nano = record { ensure = "absent"; name = "nano"; version = "" }

abbrev pub reload : Exec
reload = record { command = "reload"; args = []; subscribe_files = "/etc/ssh/sshd_config" ∷ [] }

abbrev pub base : ConfigSet
base = record {
  name = "base";
  namespace = "nodemanager";
  labels = linux;
  resource_version = "1";
  generation = 1;
  spec = record {
    files = motd ∷ [];
    packages = vim ∷ nano ∷ [];
    services = ssh ∷ [];
    executions = reload ∷ [];
    notifies = [];
  };
  conditions = [];
}

abbrev rival : ConfigSet
rival = record base { name = "rival" }

abbrev old : ConfigSetApplyStatus
old = record {
  name = "base";
  resource_version = "1";
  last_applied = 5;
  error = "failed";
  conflicts = [];
}

abbrev new : ConfigSetApplyStatus
new = record { name = "base"; resource_version = "2"; last_applied = 9; error = ""; conflicts = [] }

abbrev entries : List Entry
entries = record { name = "10"; is_dir = false } ∷ record { name = "20"; is_dir = false } ∷ []

abbrev pub machine : Outside
machine = record {
  retry_on_conflict = λ m. m;
  config_sets = λ h. ok (base ∷ rival ∷ []);
  packages_answer = λ h. ok (("vim", "9") ∷ []);
  package_answer = λ h. ok tt;
  service_answer = λ h. ok tt;
  service_status = λ h. stopped;
  lock_answer = λ h. ok tt;
  unlock_answer = λ h. ok tt;
  command_answer = λ h. ok tt;
  clock = λ h. 0;
  hostname_answer = λ h. ok "n1";
  node_answer = λ h. ok node;
  update_answer = λ h. ok tt;
  file_bucket_enabled = true;
  max_file_size = 0;
  stat_answer = λ h. missing;
  text_answer = λ h. ok "";
  changed_answer = λ h. ok true;
  remove_answer = λ h. (true, ok tt);
  done_answer = λ h. ok tt;
  is_mode = λ text. ok tt;
  entries_answer = λ h. ok entries;
  is_cancelled = λ h. false;
  config_set_answer = λ h. ok base;
  create_answer = λ h. ok tt;
  target_answer = λ h.
      ok (record { key = record { namespace = "nodemanager"; name = "web" }; annotations = [] });
  targets_answer = λ h. ok [];
  decimal = λ n. "1";
  list_text = λ texts. "";
  find_status_condition = λ type conditions. none;
  set_status_condition = λ c conditions. c ∷ conditions;
  reconcile_period = pos 0;
  namespace = "nodemanager";
  file_bucket_max_age = pos 0;
}

-- vim 8 and nano are there.
abbrev stale : Outside
stale = record machine { packages_answer = λ h. ok (("vim", "8") ∷ ("nano", "1") ∷ []) }

settled : All (AsWanted (("vim", "9") ∷ [])) (vim ∷ nano ∷ [])
unfolding package_ensure_from_string lookup
settled = (inl (refl, inr refl), (inr (refl, refl), tt))

settled_packages_stay_example :
    handle_package_set machine (vim ∷ nano ∷ []) [] ≡ (ok tt, list_packages ∷ [])
settled_packages_stay_example =
    settled_packages_stay machine (("vim", "9") ∷ []) (vim ∷ nano ∷ []) [] refl settled

replaced : (handle_package_set stale (vim ∷ nano ∷ []) []).0 ≡ ok tt
unfolding handle_package_set package_step package_ensure_from_string lookup for_each
replaced = refl

packages_without_error_example :
    All
      (λ pkg.
        IsDone stale
          (("vim", "8") ∷ ("nano", "1") ∷ [])
          pkg
          (handle_package_set stale (vim ∷ nano ∷ []) []).1)
      (vim ∷ nano ∷ [])
packages_without_error_example =
    packages_without_error stale (("vim", "8") ∷ ("nano", "1") ∷ []) (vim ∷ nano ∷ []) [] refl
      replaced

handle_service_set-Balanced_example :
    Balanced machine []
      (handle_service_set machine "nodemanager" (ssh ∷ []) [] ("/etc/ssh/sshd_config" ∷ []) []).1
handle_service_set-Balanced_example =
    handle_service_set-Balanced machine "nodemanager" (ssh ∷ []) [] ("/etc/ssh/sshd_config" ∷ []) []

handle_executions_all_example :
    (exes : List Exec) × AreWanted ("/etc/ssh/sshd_config" ∷ []) (reload ∷ []) exes
    × ((handle_executions machine (reload ∷ []) ("/etc/ssh/sshd_config" ∷ []) []).1
        ≡ commands_after exes [])
    × (((handle_executions machine (reload ∷ []) ("/etc/ssh/sshd_config" ∷ []) []).0 ≡ ok tt)
        ↔ AllSucceed machine exes [])
handle_executions_all_example =
    handle_executions_all machine (reload ∷ []) ("/etc/ssh/sshd_config" ∷ []) []

detect_conflicts_iff_example :
    ((detect_conflicts machine base node []).0 ≡ ok [])
    ↔ ((kind : Claimed) → All (Unclaimed base node (base ∷ rival ∷ []) kind) (keys_of kind base))
detect_conflicts_iff_example = detect_conflicts_iff machine base node (base ∷ rival ∷ []) [] refl

declared : is_declared "/etc/motd.d/10" node (base ∷ rival ∷ []) ≡ true
unfolding match_all_labels match_each lookup
declared = refl

-- What filepath.Clean does to the paths of this test.
abbrev clean : String → String
clean path = if path == "/etc/motd.d//10" then "/etc/motd.d/10" else path

plain_entries :
    (read : List Entry) (h : List Op)
    → machine.entries_answer h ≡ ok read
    → All (IsClean clean "/etc/motd.d") read
plain_entries read h p = let same : read ≡ entries = cc in rw same (refl, (refl, tt))

purge_spares_example :
    removals clean "/etc/motd.d/10" (purge_directory machine "nodemanager" node "/etc/motd.d" []).1
    ≡ 0
purge_spares_example =
    purge_spares machine clean "nodemanager" "/etc/motd.d" "/etc/motd.d/10" node (base ∷ rival ∷ [])
      [] refl plain_entries refl refl declared

match_all_labels_iff_example :
    (match_all_labels linux linux ≡ true) ↔ ((is_empty linux ≡ false) × All (Has linux) linux)
match_all_labels_iff_example = match_all_labels_iff linux linux
