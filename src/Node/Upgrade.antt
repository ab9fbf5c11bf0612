-- ===== src/Node/Upgrade.antt =====
-- `handleUpgrade` and `lastUpgradeTime`: an upgrade that is due, agreed to and in turn cordons and
-- drains the node, upgrades its packages and its system, is recorded and reboots. What Go returns
-- beside an error is dropped, as `Reconcile` does.
pub mod Safety
pub mod Order
pub mod Window
use nodemanager.Common.{Bool, Duration, Io, Option, Result, String, ask, attempt, err, false}
use nodemanager.Common.{if◌then◌else◌, is_conflict, lift, lookup, ltb, negsuc, none, not, ok}
use nodemanager.Common.{on_error, perform, pure, raise, since_lt, some, true, until, wrap, ℕ}
use nodemanager.Common.{◌+◌, ◌-◌, ◌==◌, ◌>>=◌, ◌>>◌}
use nodemanager.Api.{ManagedNode, NamespacedName}
use nodemanager.Node.{
  Op, Outside, has_subscribers, lock_for, locked, notify, read_clock, reboot, unlock,
  upgrade_completed, upgrade_packages, upgrade_started, upgrade_system,
}
use nodemanager.Node.Approval.{request_upgrade_approval}
use nodemanager.Node.Cordon.{cordon_node, get_kubernetes_node_or_none, key_of, update_status_by}
use nodemanager.Node.Drain.{drain_node}

abbrev pub annotation_upgrade_hold : String
annotation_upgrade_hold = "upgrade.nodemanager/hold"

abbrev pub annotation_last_upgrade : String
annotation_last_upgrade = "upgrade.nodemanager/last"

-- The time to look again: the zero time is `none`.
abbrev pub Next : Type 0
Next = Option ℕ

abbrev pub parsed_time : Result ℕ → Result (Option ℕ)
parsed_time (ok t) = ok (some t)
parsed_time (err e) = err (wrap "failed to parse legacy upgrade annotation" e)

abbrev pub recorded_time : Outside → Option ℕ → Option String → Result (Option ℕ)
recorded_time o (some t) v = ok (some t)
recorded_time o none none = ok none
recorded_time o none (some v) = parsed_time (o.parse_time v)

unfoldable pub last_upgrade_time : Outside → ManagedNode → Result (Option ℕ)
last_upgrade_time o node =
    recorded_time o node.status.last_upgrade (lookup annotation_last_upgrade node.annotations)

-- `!last.IsZero() && time.Since(last) < delay`
unfoldable pub is_recent : ℕ → Option ℕ → Duration → Bool
is_recent now none delay = false
is_recent now (some t) delay = since_lt now t delay

-- `time.Since(next) < ForgivenessPeriod`, the only test of the three that does not return.
unfoldable pub in_window : ℕ → Option ℕ → ℕ → Bool
in_window now none period = false
in_window now (some t) period = ltb now (t + period)

-- `time.Until` of a next run, and the least duration if there is none.
abbrev ttl : ℕ → Option ℕ → Duration
ttl now none = negsuc 9223372036854775807
ttl now (some t) = until now t

-- A notification, if there is a notifier.
abbrev pub announce : Bool → Io Op (Unit {0}) → Io Op (Unit {0})
announce true m = m
announce false m = pure tt

module _ (o : Outside) (node : ManagedNode) where
  abbrev pub group_key : NamespacedName
  group_key = record { namespace = node.namespace; name = node.upgrade.group }

  abbrev pub in_group : Bool
  in_group = not (node.upgrade.group == "")

  -- A lock that is held from the last upgrade is released, and ends this turn.
  unfoldable pub release_turn : Io Op Bool
  release_turn =
      if in_group
      then (do
        held ← ask (locked group_key) o.is_locked
        if held
            then (do attempt (perform (unlock group_key) o.unlock_answer); pure true)
            else pure false)
      else pure false

  abbrev settle : Result Bool → Io Op Bool
  settle (ok approved) = pure approved
  settle (err e) = pure false

  -- Whether an agent agrees; with no notifier nobody is asked.
  unfoldable pub is_agreed : ℕ → Io Op Bool
  is_agreed scheduled =
      if o.has_notifier
      then (do
        connected ← ask has_subscribers o.subscribed
        if connected
            then (do
              approved ← attempt (request_upgrade_approval o node scheduled)
              settle approved)
            else pure false)
      else pure true

  abbrev won : Result (Unit {0}) → Io Op Bool
  won (ok a) = pure true
  won (err e) = if is_conflict e then pure false else raise e

  -- Whether the lock of the group is taken for this slot.
  unfoldable pub take_turn : (ℕ → Option ℕ) → Io Op Bool
  take_turn schedule =
      if in_group
      then (do
        now ← ask read_clock o.clock
        now' ← ask read_clock o.clock
        r ← attempt (perform (lock_for group_key (ttl now' (schedule now))) o.lock_answer)
        won r)
      else pure true

  -- A drain that fails is logged and passed over.
  unfoldable pub leave_cluster : ℕ → Option (Unit {0}) → Io Op (Unit {0})
  leave_cluster fuel none = pure tt
  leave_cluster fuel (some present) = do
    cordon_node o node
    attempt (drain_node o fuel node.name)
    pure tt

  -- From the packages to the reboot.
  unfoldable pub finish_upgrade : Io Op Next
  finish_upgrade = do
    perform upgrade_packages o.packages_answer
    perform upgrade_system o.system_answer
    now ← ask read_clock o.clock
    on_error (wrap "failed to set last upgrade time")
        (update_status_by o (key_of node) (λ s. record s { last_upgrade = some now }))
    announce o.has_notifier (ask (notify (upgrade_completed true true)) (λ _. tt))
    ask reboot (λ _. tt {0})
    pure none

  -- From the announcement to the reboot.
  unfoldable pub run_upgrade : ℕ → Io Op Next
  run_upgrade fuel = do
    announce o.has_notifier (ask (notify (upgrade_started node.name)) (λ _. tt))
    present ← get_kubernetes_node_or_none o node.name
    leave_cluster fuel present
    finish_upgrade

  abbrev if_won : ℕ → Next → Bool → Io Op Next
  if_won fuel next true = run_upgrade fuel
  if_won fuel next false = pure next

  abbrev if_agreed : ℕ → (ℕ → Option ℕ) → Next → Bool → Io Op Next
  if_agreed fuel schedule next true = do mine ← take_turn schedule; if_won fuel next mine
  if_agreed fuel schedule next false = pure next

  -- The part below the check of the window; `t` is the scheduled time.
  abbrev when_due : ℕ → (ℕ → Option ℕ) → Next → Io Op Next
  when_due fuel schedule none = pure none
  when_due fuel schedule (some t) = do agreed ← is_agreed t; if_agreed fuel schedule (some t) agreed

  abbrev turn : ℕ → Duration → (ℕ → Option ℕ) → Next → Option ℕ → Bool → Io Op Next
  turn fuel delay schedule next last true = pure next
  turn fuel delay schedule next last false = do
    now ← ask read_clock o.clock
    if is_recent now last delay then pure next else do
      now' ← ask read_clock o.clock
      if in_window now' next o.forgiveness_period then when_due fuel schedule next else pure next

  -- The part below the guards, with the parsed schedule and delay.
  pub scheduled_upgrade : ℕ → Duration → (ℕ → Option ℕ) → Io Op Next
  scheduled_upgrade fuel delay schedule = do
    now ← ask read_clock o.clock
    last ← lift (last_upgrade_time o node)
    released ← release_turn
    turn fuel delay schedule (schedule (now - o.forgiveness_period)) last released

  abbrev is_held : Option String → Bool
  is_held none = false
  is_held (some v) = true

  unfoldable pub handle_upgrade : ℕ → Io Op Next
  unfolding scheduled_upgrade
  handle_upgrade fuel =
      if is_held (lookup annotation_upgrade_hold node.annotations)
      then pure none
      else if node.upgrade.schedule == ""
      then pure none
      else if node.upgrade.delay == ""
      then pure none
      else do
        delay ←
            on_error (wrap "failed to parse upgrade delay")
              (lift (o.parse_duration node.upgrade.delay))
        schedule ←
            on_error (wrap "failed to parse upgrade schedule") (lift (o.cron node.upgrade.schedule))
        scheduled_upgrade fuel delay schedule
