-- ===== src/Node/Upgrade/Window.antt =====
-- The check of the forgiveness window, and what `time.Since(next)` of a time to come does to it.
use nodemanager.Common.{Duration, List, Option, [], arith, eq_iff, false, found, lookup, none}
use nodemanager.Common.{ok, since_lt, some, true, ℕ, ◌-◌, ◌<◌, ◌∷◌, ◌≡◌, ◌≢◌}
use nodemanager.Api.{ManagedNode}
use nodemanager.Node.{Op, Outside, locked, read_clock}
use nodemanager.Node.Upgrade.{
  annotation_upgrade_hold, group_key, handle_upgrade, in_window, is_agreed, is_recent,
  last_upgrade_time, release_turn, run_upgrade, take_turn,
}
use nodemanager.Node.Upgrade.Safety.{touches}

module _ (o : Outside) (node : ManagedNode) (fuel : ℕ) where
  -- A node with an upgrade schedule and a delay, without hold, group, notifier or an earlier
  -- upgrade, is upgraded at once, although the scheduled time `t` that `Next` gives for the
  -- forgiveness period before the first reading of the clock is still to come at every reading,
  -- however far away it is.
  pub upgrade_ahead_of_schedule :
      (delay : Duration) (schedule : ℕ → Option ℕ) (t : ℕ)
      → lookup annotation_upgrade_hold node.annotations ≡ none
      → node.upgrade.schedule ≢ ""
      → node.upgrade.delay ≢ ""
      → node.upgrade.group ≡ ""
      → o.has_notifier ≡ false
      → o.parse_duration node.upgrade.delay ≡ ok delay
      → o.cron node.upgrade.schedule ≡ ok schedule
      → last_upgrade_time o node ≡ ok none
      → schedule (o.clock [] - o.forgiveness_period) ≡ some t
      → ((h : List Op) → o.clock h < t)
      → handle_upgrade o node fuel []
        ≡ run_upgrade o node fuel (read_clock ∷ read_clock ∷ read_clock ∷ [])
  unfolding handle_upgrade release_turn is_agreed take_turn is_recent in_window
  upgrade_ahead_of_schedule delay schedule t free scheduled delayed alone unasked parsed found fresh
        next early =
      ground (
        arith,
        eq_iff node.upgrade.schedule "",
        eq_iff node.upgrade.delay "",
        eq_iff node.upgrade.group "",
        next,
        early (read_clock ∷ read_clock ∷ []),
      )

  -- While a last upgrade is known and every reading of the clock is within the delay of it, nothing
  -- is upgraded or rebooted.
  pub recent_upgrade_waits :
      (delay : Duration) (last : ℕ)
      → o.parse_duration node.upgrade.delay ≡ ok delay
      → last_upgrade_time o node ≡ ok (some last)
      → ((h : List Op) → since_lt (o.clock h) last delay ≡ true)
      → touches (handle_upgrade o node fuel []).1 ≡ 0
  unfolding handle_upgrade release_turn is_recent
  recent_upgrade_waits delay last parsed known recent =
      ground (arith, recent (read_clock ∷ []), recent (locked (group_key o node) ∷ read_clock ∷ []))
