-- ===== src/Node/Reconcile/Hold.antt =====
-- A ManagedNode on hold is not upgraded, whatever else a reconcile does.
use nodemanager.Common.{Bool, Bool-cases, Error, IsRetry, List, Option, Preserves, Result}
use nodemanager.Common.{Result-cases, String, ap, arith, err, false, found, if◌then◌else◌, inl}
use nodemanager.Common.{inr, is_not_found, lookup, none, not, of_attempt, of_bind, of_call}
use nodemanager.Common.{of_if, of_pure, of_then, ok, pure, refl, second, some, sym, true, ℕ}
use nodemanager.Common.{◌==◌, ◌>>=◌, ◌||◌, ◌∙◌, ◌∷◌, ◌≡◌}
use nodemanager.Api.{ManagedNode, NamespacedName}
use nodemanager.Node.{Op, Outside, get_node, hostname}
use nodemanager.Node.Cordon.{key_of, maybe_uncordon}
use nodemanager.Node.Migrate.{
  get_fresh, migrate_one, migrate_upgrade_annotation, of_cordoned, of_last_upgrade,
}
use nodemanager.Node.Reconcile.{
  get_own_node, if_found, if_named, ignore_not_found, maintain, migrate_and_upgrade, read,
  reconcile, requeue,
}
use nodemanager.Node.Reconcile.Steps.{
  Q, if_cordoned-Preserves, labels-Preserves, migrate_one-Preserves, prune-Preserves,
  status-Preserves,
}
use nodemanager.Node.Upgrade.{annotation_upgrade_hold, handle_upgrade}
use nodemanager.Node.Upgrade.Safety.{touches}

abbrev pub HasHold : ManagedNode → Type 0
HasHold node = (v : String) × (lookup annotation_upgrade_hold node.annotations ≡ some v)

-- Every read of a ManagedNode finds the hold.
abbrev pub AlwaysHeld : Outside → Type 0
AlwaysHeld o = (h : List Op) (node : ManagedNode) → o.node_answer h ≡ ok node → HasHold node

ok_same : {A : Type 0} (a b : A) → Path (Result A) (ok a) (ok b) → a ≡ b
ok_same a b p = cc

found_same : {A : Type 0} (a b : A) → Path (Result (Option A)) (ok (some a)) (ok (some b)) → a ≡ b
found_same a b p = cc

module _ (o : Outside) (is : IsRetry o.retry_on_conflict) (hold : AlwaysHeld o) (n : ℕ)
    (key : NamespacedName) (fuel : ℕ) where
  upgrade-Preserves :
      (node : ManagedNode)
      → HasHold node
      → Preserves (Q o is n) (do next ← handle_upgrade o node fuel; requeue o key node next)
  unfolding handle_upgrade
  upgrade-Preserves node (v, held) = record { preserves = λ h q. rw held q }

  fresh_or_same :
      (node m : ManagedNode) (b : Bool) (h : List Op)
      → HasHold node
      → ((if b then get_fresh o node else pure node) h).0 ≡ ok m
      → HasHold m
  fresh_or_same node m true h held got = hold h m got
  fresh_or_same node m false h held got = rw (sym (ok_same node m got)) held

  migrated_hold :
      (node m : ManagedNode) (h : List Op)
      → HasHold node
      → (migrate_upgrade_annotation o node h).0 ≡ ok m
      → HasHold m
  unfolding migrate_upgrade_annotation
  migrated_hold node m h held got = elim (Result-cases (migrate_one o node of_last_upgrade h).0) [
    | inr (e, failed) ↦ cc (rw failed at got)
    | inl (a, first) ↦
        let h1 : List Op = (migrate_one o node of_last_upgrade h).1 in
        elim (Result-cases (migrate_one o node of_cordoned h1).0) [
          | inr (e, failed) ↦ cc (rw (first, failed) at got)
          | inl (b, second) ↦ fresh_or_same node m (a || b) _ held (rw (first, second) at got)
        ]
  ]

  migrate-Preserves :
      (node : ManagedNode) → Preserves (Q o is n) (migrate_upgrade_annotation o node)
  unfolding migrate_upgrade_annotation
  migrate-Preserves node = of_bind (migrate_one-Preserves o is n node of_last_upgrade) (λ a.
      of_bind (migrate_one-Preserves o is n node of_cordoned) (λ b.
        of_if (a || b) (of_call (get_node (key_of node)) o.node_answer (λ h q. q))
          (of_pure {r = ok node})))

  last-Preserves :
      (node : ManagedNode)
      → HasHold node
      → Preserves (Q o is n) (migrate_and_upgrade o key fuel node)
  last-Preserves node held = record {
    preserves = λ h q.
        let same : Q o is n (migrate_upgrade_annotation o node h).1 =
          (migrate-Preserves node).preserves h q in
        elim (Result-cases (migrate_upgrade_annotation o node h).0) [
          | inr (e, failed) ↦ rw failed same
          | inl (m, moved) ↦
              rw moved ((upgrade-Preserves m (migrated_hold node m h held moved)).preserves _ same)
        ];
  }

  maintain-Preserves :
      (node : ManagedNode) → HasHold node → Preserves (Q o is n) (maintain o key fuel node)
  unfolding maybe_uncordon
  maintain-Preserves node held =
      of_then (if_cordoned-Preserves o is n node.status.kubernetes_node_cordoned node) (
        of_bind (labels-Preserves o is n node) (λ labels.
          of_then (status-Preserves o is n (record node { labels = labels })) (
            of_then (prune-Preserves o is n (record node { labels = labels }))
              (last-Preserves (record node { labels = labels }) held))))

  read_held :
      (r : Result ManagedNode) (h : List Op) (node : ManagedNode)
      → ((m : ManagedNode) → r ≡ ok m → HasHold m)
      → (read o key r h).0 ≡ ok (some node)
      → HasHold node
  read_held (ok m) h node held got = rw (sym (found_same m node got)) (held m refl)
  read_held (err e) h node held got = ground arith

  named_held :
      (r : Result String) (h : List Op) (node : ManagedNode)
      → (if_named o key r h).0 ≡ ok (some node)
      → HasHold node
  named_held (err e) h node got = ground arith
  named_held (ok name) h node got = elim (Bool-cases (name == key.name)) [
    | inr differ ↦ cc (rw differ at got)
    | inl same ↦
        read_held (o.node_answer h) (get_node key ∷ h) node (λ m p. hold h m p) (rw same at got)
  ]

  own_node-Preserves : Preserves (Q o is n) (get_own_node o key)
  unfolding get_own_node
  own_node-Preserves =
      of_bind (of_attempt (of_call hostname o.hostname_answer (λ h q. q))) (λ r. named r)
    where
      absent : {A : Type 0} (e : Error) → Preserves (Q o is n) (ignore_not_found {A = A} e)
      absent e = of_if (is_not_found e) (of_pure {r = ok none}) of_pure

      got : (r : Result ManagedNode) → Preserves (Q o is n) (read o key r)
      got (ok node) = of_pure
      got (err e) = absent e

      named : (r : Result String) → Preserves (Q o is n) (if_named o key r)
      named (err e) = absent e
      named (ok name) =
          of_if (not (name == key.name)) (of_pure {r = ok none})
            (of_bind (of_attempt (of_call (get_node key) o.node_answer (λ h q. q))) (λ r. got r))

  found_held :
      (found : Option ManagedNode) (h : List Op)
      → ((node : ManagedNode) → found ≡ some node → HasHold node)
      → Q o is n h
      → Q o is n (if_found o key fuel found h).1
  found_held none h held q = q
  found_held (some node) h held q = (maintain-Preserves node (held node refl)).preserves h q

  reconcile_stays : (h : List Op) → touches h ≡ n → touches (reconcile o key fuel h).1 ≡ n
  unfolding reconcile get_own_node
  reconcile_stays h q =
      let same : Q o is n (get_own_node o key h).1 = own_node-Preserves.preserves h q in
      elim (Result-cases (get_own_node o key h).0) [
        | inr (e, failed) ↦ rw failed same
        | inl (found, got) ↦ rw got (
            found_held found _
              (λ node p. named_held (o.hostname_answer h) (hostname ∷ h) node (got ∙ ap ok p)) same)
      ]

-- If conflicts are retried the way client-go documents and every read of a ManagedNode finds the
-- annotation that holds upgrades, then a reconcile upgrades no package and no system and does not
-- reboot, whatever its calls answer besides.
pub held_node_stays :
    (o : Outside)
    → IsRetry o.retry_on_conflict
    → AlwaysHeld o
    → (key : NamespacedName) (fuel : ℕ) (h : List Op)
    → touches (reconcile o key fuel h).1 ≡ touches h
held_node_stays o is hold key fuel h = reconcile_stays o is hold (touches h) key fuel h refl
