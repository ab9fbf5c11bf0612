-- ===== src/Node/Drain.antt =====
-- Draining: `isDrainablePod` and `drainNode`.
pub mod Bounds
use nodemanager.Common.{Bool, Io, List, Option, String, [], any, ask, attempt, false}
use nodemanager.Common.{if◌then◌else◌, length, lookup, ltb, nat_eq, new_error, none, ok}
use nodemanager.Common.{on_error, perform, pure, raise, second, some, suc, true, wrap, zero, ℕ}
use nodemanager.Common.{◌*◌, ◌+◌, ◌==◌, ◌>>=◌, ◌>>◌, ◌∷◌}
use nodemanager.Node.{
  Op, Outside, Phase, Pod, evict, failed, list_pods, read_clock, sleep, succeeded,
}

abbrev is_finished : Phase → Bool
is_finished succeeded = true
is_finished failed = true
is_finished _ = false

abbrev has : {V : Type 0} → Option V → Bool
has none = false
has (some v) = true

unfoldable pub is_drainable_pod : Pod → Bool
is_drainable_pod pod =
    if has pod.deletion_timestamp
    then false
    else if is_finished pod.phase
    then false
    else if any (λ kind. kind == "DaemonSet") pod.owner_kinds
    then false
    else if has (lookup "kubernetes.io/config.mirror" pod.annotations)
    then false
    else true

-- The pods of the counting loop.
unfoldable pub drainable : List Pod → List Pod
drainable [] = []
drainable (pod ∷ pods) =
    let rest = drainable pods in if is_drainable_pod pod then pod ∷ rest else rest

module _ (o : Outside) where
  -- An eviction that fails is logged and passed over, whatever its error.
  unfoldable pub evict_all : List Pod → Io Op (Unit {0})
  evict_all [] = pure tt
  evict_all (pod ∷ pods) = do
    attempt (perform (evict pod.namespace pod.name) o.evict_answer)
    evict_all pods

  abbrev list : String → Io Op (List Pod)
  list hostname = perform (list_pods hostname) o.pods

  -- The rounds of the waiting loop; `fuel` bounds their number, and `none` says that it ran out.
  unfoldable pub await_drained : ℕ → ℕ → String → Io Op (Option (Unit {0}))
  await_drained zero deadline hostname = pure none
  await_drained (suc fuel) deadline hostname = do
    current ← on_error (wrap "failed to list pods during drain") (list hostname)
    let rest = await_drained fuel deadline hostname
    if nat_eq (length (drainable current)) 0 then pure (some tt) else do
      now ← ask read_clock o.clock
      if ltb deadline now
          then raise (new_error "drain timed out")
          else do perform (sleep (5 * second)) (λ _. ok tt); rest

  unfoldable pub drain_node : ℕ → String → Io Op (Option (Unit {0}))
  drain_node fuel hostname = do
    pods ← on_error (wrap "failed to list pods on node") (list hostname)
    evict_all (drainable pods)
    now ← ask read_clock o.clock
    await_drained fuel (now + o.drain_timeout) hostname
