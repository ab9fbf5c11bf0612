-- ===== src/Node/Upgrade/Order.antt =====
-- The order of an upgrade: out of the cluster, packages, system, the record, and then the reboot.
use nodemanager.Common.{Bool, Bool-cases, Io, IsRetry, List, Option, Result, Result-cases}
use nodemanager.Common.{Sometime, [], arith, ask, err, false, found, inl, inr, is_not_found}
use nodemanager.Common.{none, ok, perform, refl, some, suc, true, ℕ, ◌>>=◌, ◌>>◌, ◌∷◌, ◌≡◌, ◌≢◌}
use nodemanager.Common.{◌≤◌, ◌⊎◌}
use nodemanager.Api.{ManagedNode, NamespacedName}
use nodemanager.Node.{
  Event, Op, Outside, get_kubernetes_node, get_node, notify, patch_unschedulable, read_clock,
  reboot, update_status, upgrade_completed, upgrade_packages, upgrade_started, upgrade_system,
}
use nodemanager.Node.Cordon.{cordon_node, get_kubernetes_node_or_none, key_of, update_status_by}
use nodemanager.Node.Quiet.{
  Closed, Closed-Sometime, Keeps, cordon_node-Keeps, drain_node-Keeps, get_kubernetes_node-Keeps,
  get_update-Keeps, tries_ok, update_status_by-Keeps,
}
use nodemanager.Node.Upgrade.{
  Next, announce, finish_upgrade, handle_upgrade, leave_cluster, run_upgrade,
}
use nodemanager.Node.Upgrade.Safety.{handle_upgrade_cleared, touches}

-- How often the machine was rebooted.
abbrev pub reboots : List Op → ℕ
reboots [] = 0
reboots (reboot ∷ h) = suc (reboots h)
reboots (_ ∷ h) = reboots h

abbrev pub IsAbsent : Result (Unit {0}) → Type 0
IsAbsent (ok a) = ⊥
IsAbsent (err e) = is_not_found e ≡ true

-- The cluster was told not to schedule on the node, or had no such node.
abbrev pub IsLeave : Outside → ManagedNode → Op → List Op → Type 0
IsLeave o node (patch_unschedulable name true) h = (name ≡ node.name) × (o.patch_answer h ≡ ok tt)
IsLeave o node (get_kubernetes_node name) h = (name ≡ node.name) × IsAbsent (o.kubernetes_node h)
IsLeave o node _ h = ⊥

abbrev pub IsPackages : Outside → ManagedNode → Op → List Op → Type 0
IsPackages o node upgrade_packages h = (o.packages_answer h ≡ ok tt) × Sometime (IsLeave o node) h
IsPackages o node _ h = ⊥

abbrev pub IsSystem : Outside → ManagedNode → Op → List Op → Type 0
IsSystem o node upgrade_system h = (o.system_answer h ≡ ok tt) × Sometime (IsPackages o node) h
IsSystem o node _ h = ⊥

abbrev pub upgraded_at : ℕ → ManagedNode → ManagedNode
upgraded_at t node = record node { status = record node.status { last_upgrade = some t } }

-- The clock gave `t` after the system was upgraded.
abbrev pub IsTimed : Outside → ManagedNode → ℕ → Op → List Op → Type 0
IsTimed o node t read_clock h = (o.clock h ≡ t) × Sometime (IsSystem o node) h
IsTimed o node t _ h = ⊥

-- The resource of the node, as it was just read, was stored with the time of the last upgrade that
-- the clock gave before; before that the system was upgraded, before that its packages were, and
-- before that the node had left the cluster.
abbrev pub IsRecord : Outside → ManagedNode → Op → List Op → Type 0
IsRecord o node (update_status stored) (get_node key ∷ h) =
    (key ≡ record { namespace = node.namespace; name = node.name })
    × (o.update_answer (get_node key ∷ h) ≡ ok tt)
    × ((fresh : ManagedNode) × (t : ℕ) × (o.node_answer h ≡ ok fresh)
        × (stored ≡ upgraded_at t fresh)
        × Sometime (IsTimed o node t) h)
IsRecord o node _ h = ⊥

-- The last call is the reboot, the only one since `n` were counted, with the record before it.
abbrev pub EndsRebooted : Outside → ManagedNode → ℕ → List Op → Type 0
EndsRebooted o node n (reboot ∷ h) = (reboots h ≡ n) × Sometime (IsRecord o node) h
EndsRebooted o node n _ = ⊥

abbrev store_upgrade : Outside → NamespacedName → ℕ → Io Op (Unit {0})
store_upgrade o key t = do
  fresh ← perform (get_node key) o.node_answer
  perform
      (update_status (record fresh { status = record (fresh.status) { last_upgrade = some t } }))
      o.update_answer

reboots-Closed : (n : ℕ) → Closed (λ h. reboots h ≡ n)
reboots-Closed n reboot h quiet q = elim quiet [ ]
reboots-Closed n _ h quiet q = q

along :
    (o : Outside) (node : ManagedNode) (h : List Op) {a b : ℕ}
    → a ≡ b
    → (reboots h ≡ a) ⊎ EndsRebooted o node a h
    → (reboots h ≡ b) ⊎ EndsRebooted o node b h
along o node h e found = rw e at found

reboots-le-touches : (h : List Op) → reboots h ≤ touches h
reboots-le-touches [] = omega arith
reboots-le-touches (op ∷ h) = ground (arith, reboots-le-touches h)

announce-reboots :
    (heard : Bool) (event : Event) (h : List Op)
    → reboots (announce heard (ask (notify event) (λ _. tt)) h).1 ≡ reboots h
announce-reboots true event h = refl
announce-reboots false event h = refl

announce-ok :
    (heard : Bool) (event : Event) (h : List Op)
    → (announce heard (ask (notify event) (λ _. tt)) h).0 ≡ ok tt
announce-ok true event h = refl
announce-ok false event h = refl

module _ (o : Outside) (is : IsRetry o.retry_on_conflict) where
  cordon_node-Leave :
      (node : ManagedNode) (h : List Op)
      → (cordon_node o node h).0 ≡ ok tt
      → Sometime (IsLeave o node) (cordon_node o node h).1
  unfolding cordon_node
  cordon_node-Leave node h done = elim (Result-cases (o.patch_answer h)) [
    | inr (e, failed) ↦ cc (rw failed at done)
    | inl (u, patched) ↦ rw patched (
        update_status_by-Keeps (Sometime (IsLeave o node)) (Closed-Sometime (IsLeave o node)) o is
          (key_of node) _ _ (inr (inl (refl, patched))))
  ]

  -- The stage before the packages: the node is found and cordoned, or it is not in the cluster.
  leave_cluster-Leave :
      (node : ManagedNode) (fuel : ℕ) (h : List Op) (present : Option (Unit {0}))
      → (get_kubernetes_node_or_none o node.name h).0 ≡ ok present
      → let h1 = (get_kubernetes_node_or_none o node.name h).1 in
        (leave_cluster o node fuel present h1).0 ≡ ok tt
        → Sometime (IsLeave o node) (leave_cluster o node fuel present h1).1
  unfolding leave_cluster
  leave_cluster-Leave node fuel h none found done =
      unfold get_kubernetes_node_or_none in
      elim (Result-cases (o.kubernetes_node h)) [
        | inl (u, present) ↦ cc (rw present at found)
        | inr (e, failed) ↦ elim (Bool-cases (is_not_found e)) [
          | inl absent ↦ ground arith
          | inr refused ↦ cc (rw (failed, refused) at found)
        ]
      ]
  leave_cluster-Leave node fuel h (some u) found done =
      let h1 : List Op = (get_kubernetes_node_or_none o node.name h).1 in
      elim (Result-cases (cordon_node o node h1).0) [
        | inr (e, failed) ↦ cc (rw failed at done)
        | inl (v, cordoned) ↦ rw cordoned (
            drain_node-Keeps (Sometime (IsLeave o node)) (Closed-Sometime (IsLeave o node)) o fuel
              node.name _ (cordon_node-Leave node h1 cordoned))
      ]

  store_upgrade-Record :
      (node : ManagedNode) (t : ℕ) (h : List Op)
      → Sometime (IsTimed o node t) h
      → (store_upgrade o (key_of node) t h).0 ≡ ok tt
      → Sometime (IsRecord o node) (store_upgrade o (key_of node) t h).1
  store_upgrade-Record node t h s done = elim (Result-cases (o.node_answer h)) [
    | inr (e, failed) ↦ cc (rw failed at done)
    | inl (fresh, found) ↦ rw found (inl (refl, rw found at done, (fresh, t, found, refl, s)))
  ]

  store_time-IsRecord :
      (node : ManagedNode) (t : ℕ) (h : List Op)
      → Sometime (IsTimed o node t) h
      → let store = update_status_by o (key_of node) (λ s. record s { last_upgrade = some t }) in
        (store h).0 ≡ ok tt → Sometime (IsRecord o node) (store h).1
  unfolding update_status_by
  store_time-IsRecord node t h s done =
      let key : NamespacedName = key_of node in
      let store : Io Op (Unit {0}) = store_upgrade o key t in
      let (n, e) = is store h in
      rw e (
        tries_ok (Sometime (IsTimed o node t)) (Sometime (IsRecord o node)) store
          (get_update-Keeps (Sometime (IsTimed o node t)) (Closed-Sometime (IsTimed o node t)) o key
            (upgraded_at t))
          (store_upgrade-Record node t) n h s (rw e at done))

  ends-EndsRebooted :
      (node : ManagedNode) (heard : Bool) (n : ℕ) (h : List Op)
      → reboots h ≡ n
      → Sometime (IsRecord o node) h
      → EndsRebooted o node n
          (reboot ∷ (announce heard (ask (notify (upgrade_completed true true)) (λ _. tt)) h).1)
  ends-EndsRebooted node true n h same s = (same, inr s)
  ends-EndsRebooted node false n h same s = (same, s)

  finish_upgrade-Record :
      (node : ManagedNode) (h : List Op)
      → Sometime (IsLeave o node) h
      → (reboots (finish_upgrade o node h).1 ≡ reboots h)
        ⊎ EndsRebooted o node (reboots h) (finish_upgrade o node h).1
  unfolding finish_upgrade
  finish_upgrade-Record node h left = elim (Result-cases (o.packages_answer h)) [
    | inr (e, failed) ↦ inl (rw failed)
    | inl (u, packages) ↦ elim (Result-cases (o.system_answer (upgrade_packages ∷ h))) [
      | inr (e, failed) ↦ inl (rw (packages, failed))
      | inl (v, system) ↦
          let h1 : List Op = upgrade_system ∷ upgrade_packages ∷ h in
          let h2 : List Op = read_clock ∷ h1 in
          let store : Io Op (Unit {0}) =
            update_status_by o (key_of node) (λ s. record s { last_upgrade = some (o.clock h1) }) in
          let same : reboots (store h2).1 ≡ reboots h =
            update_status_by-Keeps (λ l. reboots l ≡ reboots h) (reboots-Closed (reboots h)) o is
              (key_of node) _ h2 refl in
          elim (Result-cases (store h2).0) [
            | inr (e, failed) ↦ inl (rw (packages, system, failed) same)
            | inl (w, stored) ↦ inr (
                let kept =
                  store_time-IsRecord node (o.clock h1) h2
                    (inl (refl, inl (system, inl (packages, left)))) stored in
                rw (packages, system, stored)
                  (rw (announce-ok o.has_notifier (upgrade_completed true true))
                    (ends-EndsRebooted node o.has_notifier (reboots h) _ same kept)))
          ]
    ]
  ]

  leave_cluster-Keeps :
      (Q : List Op → Type 0)
      → Closed Q
      → (node : ManagedNode) (fuel : ℕ) (present : Option (Unit {0}))
      → Keeps Q (leave_cluster o node fuel present)
  unfolding leave_cluster
  leave_cluster-Keeps Q closed node fuel none h q = q
  leave_cluster-Keeps Q closed node fuel (some u) h q =
      let q1 : Q (cordon_node o node h).1 = cordon_node-Keeps Q closed o is node h q in
      elim (Result-cases (cordon_node o node h).0) [
        | inr (e, failed) ↦ rw failed q1
        | inl (v, cordoned) ↦ rw cordoned (drain_node-Keeps Q closed o fuel node.name _ q1)
      ]

  abbrev below_announcement : ManagedNode → ℕ → Io Op Next
  below_announcement node fuel = do
    present ← get_kubernetes_node_or_none o node.name
    leave_cluster o node fuel present
    finish_upgrade o node

  below_announcement-Record :
      (node : ManagedNode) (fuel : ℕ) (h : List Op)
      → (reboots (below_announcement node fuel h).1 ≡ reboots h)
        ⊎ EndsRebooted o node (reboots h) (below_announcement node fuel h).1
  below_announcement-Record node fuel h =
      let h1 : List Op = (get_kubernetes_node_or_none o node.name h).1 in
      let same : reboots h1 ≡ reboots h =
        get_kubernetes_node-Keeps (λ l. reboots l ≡ reboots h) (reboots-Closed (reboots h)) o is
          node.name h refl in
      elim (Result-cases (get_kubernetes_node_or_none o node.name h).0) [
        | inr (e, failed) ↦ inl (rw failed same)
        | inl (present, found) ↦
            let kept : reboots (leave_cluster o node fuel present h1).1 ≡ reboots h =
              leave_cluster-Keeps (λ l. reboots l ≡ reboots h) (reboots-Closed (reboots h)) node
                fuel present h1 same in
            elim (Result-cases (leave_cluster o node fuel present h1).0) [
              | inr (e, failed) ↦ inl (rw (found, failed) kept)
              | inl (u, left) ↦
                  rw (found, left)
                    (along o node _ kept (
                      finish_upgrade-Record node _
                        (leave_cluster-Leave node fuel h present found left)))
            ]
      ]

  run_upgrade-Record :
      (node : ManagedNode) (fuel : ℕ) (h : List Op)
      → (reboots (run_upgrade o node fuel h).1 ≡ reboots h)
        ⊎ EndsRebooted o node (reboots h) (run_upgrade o node fuel h).1
  unfolding run_upgrade
  run_upgrade-Record node fuel h =
      let h0 : List Op =
        (announce o.has_notifier (ask (notify (upgrade_started node.name)) (λ _. tt)) h).1 in
      rw (announce-ok o.has_notifier (upgrade_started node.name) h) (
        along o node _ (announce-reboots o.has_notifier (upgrade_started node.name) h)
          (below_announcement-Record node fuel h0))

  -- With a retry on conflicts as client-go documents it: if `handleUpgrade` reboots, then the
  -- reboot is its last call and its only reboot; before it the resource of this node was stored, as
  -- it was just read but for the time of the last upgrade, which the clock gave before; before that
  -- the system was upgraded, before that the packages were, and before that the cluster was told
  -- not to schedule on the node of this name or had no such node, each of these with success.
  pub reboot_last :
      (node : ManagedNode) (fuel : ℕ)
      → reboots (handle_upgrade o node fuel []).1 ≢ 0
      → EndsRebooted o node 0 (handle_upgrade o node fuel []).1
  reboot_last node fuel rebooted =
      let all = handle_upgrade_cleared o node fuel (λ none_touched.
        rebooted (omega (arith, reboots-le-touches (handle_upgrade o node fuel []).1))) in
      let (before, run, fresh, agreed, mine) = all.3 in
      let quiet : reboots before ≡ 0 = omega (arith, fresh, reboots-le-touches before) in
      elim (along o node _ quiet (run_upgrade-Record node fuel before)) [
        | inl same ↦ absurd (rebooted (rw run same))
        | inr ends ↦ rw run ends
      ]
