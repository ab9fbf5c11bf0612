-- ===== src/ConfigSet/Collection.antt =====
-- The collection of the file bucket: `maybeRunGC` of `runFileBucketGC` and `updateLastGCTimestamp`.
-- It runs at the start and at each tick of an hour.
use nodemanager.Common.{Bool, Duration, Io, Option, Result, ask, attempt, err, false, ignored}
use nodemanager.Common.{none, ok, perform, pure, since_lt, some, true, ℕ, ◌>>=◌}
use nodemanager.Api.{ManagedNode}
use nodemanager.ConfigSet.{Op, Outside, collect_garbage, get_node, read_clock, update_status}
use nodemanager.ConfigSet.Records.{get_local_managed_node}

-- `lastGC != nil && time.Since(*lastGC) < maxAge`
unfoldable pub is_fresh : ℕ → Option ℕ → Duration → Bool
is_fresh now none age = false
is_fresh now (some t) age = since_lt now t age

module _ (o : Outside) where
  unfoldable pub update_last_gc_timestamp : ManagedNode → Io Op (Unit {0})
  update_last_gc_timestamp node = ignored (
      o.retry_on_conflict (do
        n ←
            perform (get_node (record { namespace = node.namespace; name = node.name }))
              o.node_answer
        now ← ask read_clock o.clock
        perform
            (update_status
              (record n { status = record (n.status) { last_file_bucket_gc = some now } }))
            o.update_answer))

  abbrev collected : ManagedNode → Result (Unit {0}) → Io Op (Unit {0})
  collected node (err e) = pure tt
  collected node (ok u) = update_last_gc_timestamp node

  abbrev if_stale : ManagedNode → Bool → Io Op (Unit {0})
  if_stale node true = pure tt
  if_stale node false = do r ← attempt (perform collect_garbage o.done_answer); collected node r

  abbrev collect_for : Result ManagedNode → Io Op (Unit {0})
  collect_for (err e) = pure tt
  collect_for (ok node) = do
    now ← ask read_clock o.clock
    if_stale node (is_fresh now node.status.last_file_bucket_gc o.file_bucket_max_age)

  unfoldable pub maybe_run_gc : Io Op (Unit {0})
  maybe_run_gc = do r ← attempt (get_local_managed_node o o.namespace); collect_for r
