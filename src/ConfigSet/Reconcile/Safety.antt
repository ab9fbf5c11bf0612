-- ===== src/ConfigSet/Reconcile/Safety.antt =====
-- What a reconcile has found out before it changes the machine or another resource.
use nodemanager.Common.{All, Bool-cases, Error, IsRetry, List, Option, Preserves, Result}
use nodemanager.Common.{Result-cases, Sometime, String, [], arith, err, false, found, ignored}
use nodemanager.Common.{inl, inr, is_empty, is_not_found, none, of_attempt, of_bind, of_call}
use nodemanager.Common.{of_error, of_if, of_ignored, of_pure, of_retry, of_then, ok, refl, some}
use nodemanager.Common.{suc, wrap, ℕ, ◌>>◌, ◌∙◌, ◌∷◌, ◌≡◌, ◌⊎◌}
use nodemanager.Api.{Condition, ConfigSet, ConfigSetApplyStatus, ManagedNode, NamespacedName}
use nodemanager.ConfigSet.{
  Op, Outside, chown, create_node, disable, enable, get_config_set, get_node, hostname, install,
  list_config_sets, mkdir, os_remove, read_clock, read_context, remove_file, remove_package,
  restart, run_command, save_to_file_bucket, set_arguments, set_mode, start, stop, symlink,
  update_config_set, update_status, update_target, write_content,
}
use nodemanager.ConfigSet.Conditions.{
  conflicted, put_condition, same_condition, update_config_set_condition,
}
use nodemanager.ConfigSet.Conflicts.{
  Claimed, Unclaimed, detect_conflicts, detect_conflicts_iff, keys_of,
}
use nodemanager.ConfigSet.Reconcile.{
  Requeue, after_seconds, apply, create_or_get_node, found_or_created, initial_node, node_key,
  on_config_set, on_conflicts, on_node, reconcile,
}
use nodemanager.ConfigSet.Records.{
  entry_of, get_local_managed_node, is_recorded, on_local, put_status, remove_config_set_status,
  remove_status, update_config_set_status, upsert,
}
use nodemanager.Labels.{Has, match_all_labels, match_all_labels_iff}

-- How many calls changed the machine or touched a resource that is to be notified.
abbrev pub changes : List Op → ℕ
changes [] = 0
changes (install name version ∷ h) = suc (changes h)
changes (remove_package name ∷ h) = suc (changes h)
changes (enable user name ∷ h) = suc (changes h)
changes (disable user name ∷ h) = suc (changes h)
changes (start user name ∷ h) = suc (changes h)
changes (stop user name ∷ h) = suc (changes h)
changes (restart user name ∷ h) = suc (changes h)
changes (set_arguments user name arguments ∷ h) = suc (changes h)
changes (run_command command args ∷ h) = suc (changes h)
changes (os_remove path ∷ h) = suc (changes h)
changes (remove_file path ∷ h) = suc (changes h)
changes (save_to_file_bucket path ∷ h) = suc (changes h)
changes (write_content path content ∷ h) = suc (changes h)
changes (chown path owner group ∷ h) = suc (changes h)
changes (set_mode path mode ∷ h) = suc (changes h)
changes (mkdir path mode ∷ h) = suc (changes h)
changes (symlink target path ∷ h) = suc (changes h)
changes (update_target version kind target ∷ h) = suc (changes h)
changes (_ ∷ h) = changes h

-- A read of the ConfigSet of the key gave `cs`.
abbrev pub ReadsSet : Outside → NamespacedName → ConfigSet → Op → List Op → Type 0
ReadsSet o key cs (get_config_set k) h = (k ≡ key) × (o.config_set_answer h ≡ ok cs)
ReadsSet o key cs _ h = ⊥

-- A read of the node of this host gave `node`, or failed, and `node` is the one to create then.
abbrev pub ReadsNode : Outside → String → ManagedNode → Op → List Op → Type 0
ReadsNode o namespace node (get_node k) (hostname ∷ h) =
    (k.namespace ≡ namespace)
    × (o.hostname_answer h ≡ ok k.name)
    × ((o.node_answer (hostname ∷ h) ≡ ok node)
        ⊎ ((e : Error) × (o.node_answer (hostname ∷ h) ≡ err e) × (node ≡ initial_node k)))
ReadsNode o namespace node _ h = ⊥

-- A listing of the namespace of `cs` has no other ConfigSet that applies to the node and claims
-- what `cs` claims.
abbrev pub ListsFree : Outside → ConfigSet → ManagedNode → Op → List Op → Type 0
ListsFree o cs node (list_config_sets namespace) h =
    (namespace ≡ cs.namespace)
    × ((all : List ConfigSet) × (o.config_sets h ≡ ok all)
        × ((kind : Claimed) → All (Unclaimed cs node all kind) (keys_of kind cs)))
ListsFree o cs node _ h = ⊥

-- The run goes on from `before`, a log without a change in which the ConfigSet and the node were
-- read and found to fit, and the claims to be free, with the condition of the ConfigSet and the
-- application of this ConfigSet on this node.
abbrev pub MayApply : Outside → NamespacedName → ℕ → Result Requeue × List Op → Type 0
MayApply o key n run =
    (cs : ConfigSet) × (node : ManagedNode) × (before : List Op) × (run
      ≡ (ignored (update_config_set_condition o key []) >> apply o key.namespace cs node) before)
    × (changes before ≡ n)
    × Sometime (ReadsSet o key cs) before
    × Sometime (ReadsNode o key.namespace node) before
    × (is_empty cs.labels ≡ false)
    × All (Has node.labels) cs.labels
    × Sometime (ListsFree o cs node) before

module _ (o : Outside) (is : IsRetry o.retry_on_conflict) (n : ℕ) where
  abbrev Q : List Op → Type 0
  Q h = changes h ≡ n

  put_status-Preserves :
      (node : ManagedNode) (sets : Option (List ConfigSetApplyStatus))
      → Preserves Q (put_status o node sets)
  put_status-Preserves node none = of_pure
  put_status-Preserves node (some sets) = of_call (update_status _) o.update_answer (λ h q. q)

  update_config_set_status-Preserves :
      (key : NamespacedName) (name version : String) (e : Option Error) (conflicts : List String)
      → Preserves Q (update_config_set_status o key name version e conflicts)
  unfolding update_config_set_status
  update_config_set_status-Preserves key name version e conflicts =
      of_bind (of_call read_clock (λ h. ok (o.clock h)) (λ h q. q)) (λ now. of_retry is (
        of_bind (of_call (get_node key) o.node_answer (λ h q. q)) (λ node.
          put_status-Preserves node
            (upsert (entry_of o name version e conflicts now) node.status.config_sets))))

  local_node-Preserves : (namespace : String) → Preserves Q (get_local_managed_node o namespace)
  unfolding get_local_managed_node
  local_node-Preserves namespace = of_bind (of_call hostname o.hostname_answer (λ h q. q)) (λ name.
      of_call (get_node (record { namespace = namespace; name = name })) o.node_answer (λ h q. q))

  on_local-Preserves : (name : String) (r : Result ManagedNode) → Preserves Q (on_local o name r)
  on_local-Preserves name (err e) = of_pure
  on_local-Preserves name (ok node) =
      of_if (is_recorded o name node.status.config_sets)
        (of_ignored (
          of_retry is (
            of_bind
              (of_call (get_node (record { namespace = node.namespace; name = node.name }))
                o.node_answer (λ h q. q))
              (λ fresh.
                put_status-Preserves fresh (some (remove_status name fresh.status.config_sets))))))
        (of_pure {r = ok tt})

  remove_status-Preserves :
      (namespace name : String) → Preserves Q (remove_config_set_status o namespace name)
  unfolding remove_config_set_status
  remove_status-Preserves namespace name =
      of_bind (of_attempt (local_node-Preserves namespace)) (λ r. on_local-Preserves name r)

  put_condition-Preserves : (cs : ConfigSet) (c : Condition) → Preserves Q (put_condition o cs c)
  put_condition-Preserves cs c =
      of_if (same_condition o (o.find_status_condition c.condition_type cs.conditions) c)
        (of_pure {r = ok tt})
        (of_call
          (update_config_set (record cs { conditions = o.set_status_condition c cs.conditions }))
          o.update_answer (λ h q. q))

  condition-Preserves :
      (key : NamespacedName) (conflicts : List String)
      → Preserves Q (update_config_set_condition o key conflicts)
  unfolding update_config_set_condition
  condition-Preserves key conflicts = of_retry is (
      of_bind (of_call (get_config_set key) o.config_set_answer (λ h q. q)) (λ cs.
        of_bind (of_call read_clock (λ h. ok (o.clock h)) (λ h q. q))
          (λ now. put_condition-Preserves cs (conflicted o now cs conflicts))))

  found_or_created-Preserves :
      (key : NamespacedName) (r : Result ManagedNode) → Preserves Q (found_or_created o key r)
  found_or_created-Preserves key (ok node) = of_pure
  found_or_created-Preserves key (err e) =
      of_then
        (of_error (wrap "failed to craete initial node")
          (of_call (create_node (initial_node key)) o.create_answer (λ h q. q)))
        (of_pure {r = ok (initial_node key)})

  create_or_get_node-Preserves : (namespace : String) → Preserves Q (create_or_get_node o namespace)
  unfolding create_or_get_node
  create_or_get_node-Preserves namespace =
      of_bind (of_call hostname o.hostname_answer (λ h q. q)) (λ name.
        let key : NamespacedName = record { namespace = namespace; name = name } in
        of_bind (of_attempt (of_call (get_node key) o.node_answer (λ h q. q)))
          (λ r. found_or_created-Preserves key r))

module _ (o : Outside) where
  -- What was in the log stays, and a node that is given was read.
  create_or_get_node-Sometime :
      (P : Op → List Op → Type 0) (namespace : String) (h : List Op)
      → Sometime P h
      → Sometime P (create_or_get_node o namespace h).1
  unfolding create_or_get_node
  create_or_get_node-Sometime P namespace h s = elim (Result-cases (o.hostname_answer h)) [
    | inr (e, failed) ↦ rw failed (inr s)
    | inl (name, named) ↦ elim (Result-cases (o.node_answer (hostname ∷ h))) [
      | inl (node, found) ↦ rw (named, found) (inr (inr s))
      | inr (e, missing) ↦
          elim (Result-cases (
            o.create_answer
              (get_node (record { namespace = namespace; name = name }) ∷ hostname ∷ h))) [
                | inl (u, created) ↦ rw (named, missing, created) (inr (inr (inr s)))
                | inr (f, refused) ↦ rw (named, missing, refused) (inr (inr (inr s)))
              ]
    ]
  ]

  create_or_get_node-ReadsNode :
      (namespace : String) (node : ManagedNode) (h : List Op)
      → (create_or_get_node o namespace h).0 ≡ ok node
      → Sometime (ReadsNode o namespace node) (create_or_get_node o namespace h).1
  unfolding create_or_get_node
  create_or_get_node-ReadsNode namespace node h given = elim (Result-cases (o.hostname_answer h)) [
    | inr (e, failed) ↦ cc (rw failed at given)
    | inl (name, named) ↦ elim (Result-cases (o.node_answer (hostname ∷ h))) [
      | inl (found, read) ↦
          let same : Path (Result ManagedNode) (ok found) (ok node) = rw (named, read) at given in
          rw (named, read) (inl (refl, named, inl (read ∙ same)))
      | inr (e, missing) ↦
          let k : NamespacedName = record { namespace = namespace; name = name } in
          elim (Result-cases (o.create_answer (get_node k ∷ hostname ∷ h))) [
            | inl (u, created) ↦
                let same : Path (Result ManagedNode) (ok (initial_node k)) (ok node) =
                  rw (named, missing, created) at given in
                rw (named, missing, created)
                  (inr (inl (refl, named, inr (e, missing, the_node same))))
            | inr (f, refused) ↦ cc (rw (named, missing, refused) at given)
          ]
    ]
  ]
    where
      the_node : {a b : ManagedNode} → Path (Result ManagedNode) (ok a) (ok b) → b ≡ a
      the_node same = cc

  detect-Sometime :
      (P : Op → List Op → Type 0) (cs : ConfigSet) (node : ManagedNode) (h : List Op)
      → Sometime P h
      → Sometime P (detect_conflicts o cs node h).1
  unfolding detect_conflicts
  detect-Sometime P cs node h s = elim (Result-cases (o.config_sets h)) [
    | inl (all, listed) ↦ rw listed (inr s)
    | inr (e, failed) ↦ rw failed (inr s)
  ]

  detect-ListsFree :
      (cs : ConfigSet) (node : ManagedNode) (h : List Op)
      → (detect_conflicts o cs node h).0 ≡ ok []
      → Sometime (ListsFree o cs node) (detect_conflicts o cs node h).1
  detect-ListsFree cs node h clear = elim (Result-cases (o.config_sets h)) [
    | inl (all, listed) ↦
        let free = (detect_conflicts_iff o cs node all h listed).0 clear in
        unfold detect_conflicts in rw listed (inl (refl, (all, listed, free)))
    | inr (e, failed) ↦ unfold detect_conflicts in cc (rw failed at clear)
  ]

  detect-changes :
      (cs : ConfigSet) (node : ManagedNode) (h : List Op)
      → changes (detect_conflicts o cs node h).1 ≡ changes h
  unfolding detect_conflicts
  detect-changes cs node h = ground arith

module _ (o : Outside) (is : IsRetry o.retry_on_conflict) (key : NamespacedName) (n : ℕ) where
  abbrev Outcome : Result Requeue × List Op → Type 0
  Outcome run = (changes run.1 ≡ n) ⊎ MayApply o key n run

  conflicts-Outcome :
      (cs : ConfigSet) (node : ManagedNode) (h : List Op) (r : Result (List String))
      → changes h ≡ n
      → (r ≡ ok [] → MayApply o key n (on_conflicts o key cs node (ok []) h))
      → Outcome (on_conflicts o key cs node r h)
  conflicts-Outcome cs node h (err e) same may = inl same
  conflicts-Outcome cs node h (ok []) same may = inr (may refl)
  conflicts-Outcome cs node h (ok (c ∷ conflicts)) same may = inl (
      (of_then
          (of_ignored (
            update_config_set_status-Preserves o is n (node_key node) cs.name cs.resource_version
              none (c ∷ conflicts)))
          (of_then (of_ignored (condition-Preserves o is n key (c ∷ conflicts)))
            (of_pure {r = ok (after_seconds 60)}))).preserves
        h same)

  node-Outcome :
      (cs : ConfigSet) (h : List Op) (r : Result ManagedNode)
      → Sometime (ReadsSet o key cs) h
      → ((node : ManagedNode) → r ≡ ok node → Sometime (ReadsNode o key.namespace node) h)
      → changes h ≡ n
      → Outcome (on_node o key cs r h)
  node-Outcome cs h (err e) read own same = inl same
  node-Outcome cs h (ok node) read own same =
      elim (Bool-cases (match_all_labels node.labels cs.labels)) [
        | inr differ ↦ rw differ (
            inl (
              (of_then (remove_status-Preserves o is n o.namespace cs.name)
                  (of_pure {r = ok (after_seconds 120)})).preserves
                h same))
        | inl fits ↦
            let (labelled, has) = (match_all_labels_iff node.labels cs.labels).0 fits in
            let h1 : List Op = (detect_conflicts o cs node h).1 in
            let quiet : changes h1 ≡ n = detect-changes o cs node h ∙ same in
            rw fits (
              conflicts-Outcome cs node h1 (detect_conflicts o cs node h).0 quiet (λ clear. (
                cs,
                node,
                h1,
                refl,
                quiet,
                detect-Sometime o (ReadsSet o key cs) cs node h read,
                detect-Sometime o (ReadsNode o key.namespace node) cs node h (own node refl),
                labelled,
                has,
                detect-ListsFree o cs node h clear,
              )))
      ]

  config_set-Outcome :
      (h : List Op) (r : Result ConfigSet)
      → o.config_set_answer h ≡ r
      → changes h ≡ n
      → Outcome (on_config_set o key r (get_config_set key ∷ h))
  config_set-Outcome h (err e) read same = elim (Bool-cases (is_not_found e)) [
    | inr failed ↦ rw failed (inl same)
    | inl gone ↦ rw gone (
        inl (
          (of_then (remove_status-Preserves o is n o.namespace key.name)
              (of_pure {r = ok none})).preserves
            (get_config_set key ∷ h) same))
  ]
  config_set-Outcome h (ok cs) read same =
      let h1 : List Op = get_config_set key ∷ h in
      node-Outcome cs (create_or_get_node o key.namespace h1).1
        (create_or_get_node o key.namespace h1).0
        (create_or_get_node-Sometime o (ReadsSet o key cs) key.namespace h1 (inl (refl, read)))
        (λ node given. create_or_get_node-ReadsNode o key.namespace node h1 given)
        ((create_or_get_node-Preserves o is n key.namespace).preserves h1 same)

-- If conflicts are retried the way client-go documents, then a reconcile that changes packages,
-- services or files, runs a command or touches a resource that is to be notified has before that,
-- without a change, read the ConfigSet of its key, read the node of its host or found that it is to
-- be created, found that the ConfigSet has labels and that the node has all of them, and listed the
-- ConfigSet's namespace without another ConfigSet of the node that claims one of its files,
-- services or packages; it goes on with this ConfigSet on this node.
pub reconcile-MayApply :
    (o : Outside) (key : NamespacedName)
    → IsRetry o.retry_on_conflict
    → (changes (reconcile o key []).1 ≡ 0) ⊎ MayApply o key 0 (reconcile o key [])
unfolding reconcile
reconcile-MayApply o key is = elim (Bool-cases (o.is_cancelled [])) [
  | inl stopped ↦ rw stopped (inl refl)
  | inr going ↦ rw going (
      config_set-Outcome o is key 0 (read_context ∷ []) (o.config_set_answer (read_context ∷ []))
        refl refl)
]
