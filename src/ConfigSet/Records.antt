-- ===== src/ConfigSet/Records.antt =====
-- What the reconciler records in the status of the ManagedNode: `updateConfigSetStatus`,
-- `removeConfigSetStatus`, `updateFileBackups` and `getLocalManagedNode`. The gauges of the
-- metrics are left out.
use nodemanager.Common.{Bool, Dict, Error, Io, List, Option, Result, String, []}
use nodemanager.Common.{any, ask, attempt, copy, err, if◌then◌else◌}
use nodemanager.Common.{none, ok, perform, pure, some, true, ℕ, ◌&&◌, ◌==◌}
use nodemanager.Common.{◌>>=◌, ◌>>◌, ◌∷◌, ◌≡◌}
use nodemanager.Api.{ConfigSetApplyStatus, ManagedNode, NamespacedName}
use nodemanager.ConfigSet.{Op, Outside, get_node, hostname, read_clock, update_status}
use nodemanager.ConfigSet.Conflicts.{slices_equal}

abbrev same_status : ConfigSetApplyStatus → ConfigSetApplyStatus → Bool
same_status cs entry =
    (cs.resource_version == entry.resource_version)
    && (cs.error == entry.error)
    && slices_equal cs.conflicts entry.conflicts

abbrev put_in_front {ℓ} : {A : Type ℓ} → A → Option (List A) → Option (List A)
put_in_front x none = none
put_in_front x (some xs) = some (x ∷ xs)

-- The entries with `entry` in the place of the first of its name or at the end, or `none` where
-- nothing but the time would change, and nothing is written.
unfoldable pub upsert :
    ConfigSetApplyStatus → List ConfigSetApplyStatus → Option (List ConfigSetApplyStatus)
upsert entry [] = some (entry ∷ [])
upsert entry (cs ∷ sets) =
    let rest = upsert entry sets in
    if cs.name == entry.name
    then (if same_status cs entry then none else some (entry ∷ sets))
    else put_in_front cs rest

-- The entries of other names.
unfoldable pub remove_status : String → List ConfigSetApplyStatus → List ConfigSetApplyStatus
remove_status name [] = []
remove_status name (cs ∷ sets) =
    let rest = remove_status name sets in if cs.name == name then rest else cs ∷ rest

module _ (o : Outside) where
  abbrev pub put_status : ManagedNode → Option (List ConfigSetApplyStatus) → Io Op (Unit {0})
  put_status node none = pure tt
  put_status node (some sets) =
      perform (update_status (record node { status = record (node.status) { config_sets = sets } }))
        o.update_answer

  abbrev apply_error : Option Error → String
  apply_error none = ""
  apply_error (some e) = e.text

  abbrev pub entry_of :
      (name resource_version : String) → Option Error → List String → ℕ → ConfigSetApplyStatus
  entry_of name version failure conflicts now = record {
    name = name;
    resource_version = version;
    last_applied = now;
    error = apply_error failure;
    conflicts = conflicts;
  }

  unfoldable pub update_config_set_status :
      NamespacedName
      → (name resource_version : String) → Option Error
      → List String
      → Io Op (Unit {0})
  update_config_set_status key name version failure conflicts = do
    now ← ask read_clock o.clock
    o.retry_on_conflict (do
      node ← perform (get_node key) o.node_answer
      put_status node
          (upsert (entry_of name version failure conflicts now) node.status.config_sets))

  unfoldable pub get_local_managed_node : String → Io Op ManagedNode
  get_local_managed_node namespace = do
    name ← perform hostname o.hostname_answer
    perform (get_node (record { namespace = namespace; name = name })) o.node_answer

  abbrev pub drop_status : String → NamespacedName → Io Op (Unit {0})
  drop_status name key = o.retry_on_conflict (do
    node ← perform (get_node key) o.node_answer
    put_status node (some (remove_status name node.status.config_sets)))

  abbrev pub is_recorded : String → List ConfigSetApplyStatus → Bool
  is_recorded name = any (λ (cs : ConfigSetApplyStatus). cs.name == name)

  abbrev pub on_local : String → Result ManagedNode → Io Op (Unit {0})
  on_local name (err e) = pure tt
  on_local name (ok node) =
      if is_recorded name node.status.config_sets
      then (do
        attempt (drop_status name (record { namespace = node.namespace; name = node.name }))
        pure tt)
      else pure tt

  -- Its errors are logged.
  unfoldable pub remove_config_set_status : String → String → Io Op (Unit {0})
  remove_config_set_status namespace name = do
    r ← attempt (get_local_managed_node namespace)
    on_local name r

  unfoldable pub update_file_backups : NamespacedName → Dict String → Io Op (Unit {0})
  update_file_backups key updates = o.retry_on_conflict (do
    node ← perform (get_node key) o.node_answer
    perform
        (update_status (record node {
          status = record (node.status) { file_backups = copy node.status.file_backups updates };
        }))
        o.update_answer)

abbrev pub find_status : String → List ConfigSetApplyStatus → Option ConfigSetApplyStatus
find_status name [] = none
find_status name (cs ∷ sets) =
    let rest = find_status name sets in if cs.name == name then some cs else rest

abbrev pub written :
    List ConfigSetApplyStatus → Option (List ConfigSetApplyStatus) → List ConfigSetApplyStatus
written before none = before
written before (some after) = after

-- The same but for the time.
abbrev pub IsEntry : ConfigSetApplyStatus → Option ConfigSetApplyStatus → Type 0
IsEntry entry none = ⊥
IsEntry entry (some cs) = same_status cs entry ≡ true
