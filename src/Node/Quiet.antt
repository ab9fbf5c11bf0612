-- ===== src/Node/Quiet.antt =====
-- The parts of an upgrade that change neither packages nor the system: whatever such calls leave as
-- it is, these parts leave as it is.
use nodemanager.Common.{Bool-cases, Io, IsRetry, List, Result-cases, Sometime, String, []}
use nodemanager.Common.{arith, found, inl, inr, is_conflict, length, ltb, nat_eq, ok, perform}
use nodemanager.Common.{second, suc, tries, true, zero, ℕ, ◌*◌, ◌+◌, ◌>>=◌, ◌∷◌, ◌≡◌}
use nodemanager.Api.{ManagedNode, ManagedNodeStatus, NamespacedName}
use nodemanager.Node.{
  Op, Outside, Pod, evict, get_kubernetes_node, get_node, list_pods, patch_unschedulable,
  read_clock, reboot, sleep, update_status, upgrade_packages, upgrade_system,
}
use nodemanager.Node.Cordon.{cordon_node, get_kubernetes_node_or_none, update_status_by}
use nodemanager.Node.Drain.{await_drained, drain_node, drainable, evict_all}
use nodemanager.Node.Drain.Bounds.{evict_all-ok}

abbrev pub IsQuiet : Op → Type 0
IsQuiet upgrade_packages = ⊥
IsQuiet upgrade_system = ⊥
IsQuiet reboot = ⊥
IsQuiet _ = Unit

-- What quiet calls leave as it is.
abbrev pub Closed : (List Op → Type 0) → Type 0
Closed Q = (op : Op) (h : List Op) → IsQuiet op → Q h → Q (op ∷ h)

abbrev pub Keeps : {A : Type 0} → (List Op → Type 0) → Io Op A → Type 0
Keeps Q m = (h : List Op) → Q h → Q (m h).1

pub Closed-Sometime : (P : Op → List Op → Type 0) → Closed (Sometime P)
Closed-Sometime P op h quiet s = inr s

module _ (Q : List Op → Type 0) (closed : Closed Q) where
  tries-Keeps : (n : ℕ) (m : Io Op (Unit {0})) → Keeps Q m → Keeps Q (tries n m)
  unfolding tries
  tries-Keeps zero m keep h q = keep h q
  tries-Keeps (suc n) m keep h q = ground (arith, keep h q, tries-Keeps n m keep (m h).1)

  retry-Keeps :
      (retry : Io Op (Unit {0}) → Io Op (Unit {0})) (m : Io Op (Unit {0}))
      → IsRetry retry
      → Keeps Q m
      → Keeps Q (retry m)
  retry-Keeps retry m is keep h q = let (n, e) = is m h in rw e (tries-Keeps n m keep h q)

-- What a successful retry ends in: the last run of the function succeeded.
pub tries_ok :
    (Q R : List Op → Type 0) (m : Io Op (Unit {0}))
    → Keeps Q m
    → ((h : List Op) → Q h → (m h).0 ≡ ok tt → R (m h).1)
    → (n : ℕ) (h : List Op) → Q h
    → (tries n m h).0 ≡ ok tt
    → R (tries n m h).1
unfolding tries
tries_ok Q R m keep ends zero h q done = ends h q done
tries_ok Q R m keep ends (suc n) h q done = elim (Result-cases (m h).0) [
  | inl (u, ran) ↦ rw ran (ends h q ran)
  | inr (e, failed) ↦ elim (Bool-cases (is_conflict e)) [
    | inr final ↦ cc (rw (failed, final) at done)
    | inl again ↦
        rw (failed, again)
          (tries_ok Q R m keep ends n (m h).1 (keep h q) (rw (failed, again) at done))
  ]
]

module _ (Q : List Op → Type 0) (closed : Closed Q) (o : Outside) where
  evict_all-Keeps : (pods : List Pod) → Keeps Q (evict_all o pods)
  unfolding evict_all
  evict_all-Keeps [] h q = q
  evict_all-Keeps (pod ∷ pods) h q =
      evict_all-Keeps pods (evict pod.namespace pod.name ∷ h) (closed _ h tt q)

  await_drained-Keeps :
      (fuel deadline : ℕ) (name : String) → Keeps Q (await_drained o fuel deadline name)
  unfolding await_drained
  await_drained-Keeps zero deadline name h q = q
  await_drained-Keeps (suc fuel) deadline name h q =
      let h1 : List Op = list_pods name ∷ h in
      let h2 : List Op = read_clock ∷ h1 in
      let h3 : List Op = sleep (5 * second) ∷ h2 in
      let q1 : Q h1 = closed _ h tt q in
      let q2 : Q h2 = closed _ h1 tt q1 in
      let q3 : Q h3 = closed _ h2 tt q2 in
      elim (Result-cases (o.pods h)) [
        | inr (e, failed) ↦ rw failed q1
        | inl (pods, listed) ↦ elim (Bool-cases (nat_eq (length (drainable pods)) 0)) [
          | inl done ↦ rw (listed, done) q1
          | inr more ↦ elim (Bool-cases (ltb deadline (o.clock h1))) [
            | inl late ↦ rw (listed, more, late) q2
            | inr early ↦ rw (listed, more, early) (await_drained-Keeps fuel deadline name h3 q3)
          ]
        ]
      ]

  pub drain_node-Keeps : (fuel : ℕ) (name : String) → Keeps Q (drain_node o fuel name)
  unfolding drain_node
  drain_node-Keeps fuel name h q =
      let h1 : List Op = list_pods name ∷ h in
      let q1 : Q h1 = closed _ h tt q in
      elim (Result-cases (o.pods h)) [
        | inr (e, failed) ↦ rw failed q1
        | inl (pods, listed) ↦
            let h2 : List Op = (evict_all o (drainable pods) h1).1 in
            rw (listed, evict_all-ok o (drainable pods) h1)
              (await_drained-Keeps fuel (o.clock h2 + o.drain_timeout) name (read_clock ∷ h2)
                (closed _ h2 tt (evict_all-Keeps (drainable pods) h1 q1)))
      ]

  -- One try of a get and an update of the status.
  pub get_update-Keeps :
      (key : NamespacedName) (change : ManagedNode → ManagedNode)
      → Keeps Q (do
        fresh ← perform (get_node key) o.node_answer
        perform (update_status (change fresh)) o.update_answer)
  get_update-Keeps key change h q =
      let q1 : Q (get_node key ∷ h) = closed _ h tt q in
      elim (Result-cases (o.node_answer h)) [
        | inr (e, failed) ↦ rw failed q1
        | inl (fresh, found) ↦ rw found (closed _ _ tt q1)
      ]

  module _ (is : IsRetry o.retry_on_conflict) where
    pub update_status_by-Keeps :
        (key : NamespacedName) (change : ManagedNodeStatus → ManagedNodeStatus)
        → Keeps Q (update_status_by o key change)
    unfolding update_status_by
    update_status_by-Keeps key change =
        retry-Keeps Q closed o.retry_on_conflict _ is
          λ h q. get_update-Keeps key (λ fresh. record fresh { status = change fresh.status }) h q

    pub get_kubernetes_node-Keeps : (name : String) → Keeps Q (get_kubernetes_node_or_none o name)
    unfolding get_kubernetes_node_or_none
    get_kubernetes_node-Keeps name h q =
        let q1 : Q (get_kubernetes_node name ∷ h) = closed _ h tt q in ground arith

    pub cordon_node-Keeps : (node : ManagedNode) → Keeps Q (cordon_node o node)
    unfolding cordon_node
    cordon_node-Keeps node h q =
        let h1 : List Op = patch_unschedulable node.name true ∷ h in
        let q1 : Q h1 = closed _ h tt q in
        elim (Result-cases (o.patch_answer h)) [
          | inr (e, failed) ↦ rw failed q1
          | inl (done, patched) ↦
              rw patched (update_status_by-Keeps _ _ (read_clock ∷ h1) (closed _ h1 tt q1))
        ]
