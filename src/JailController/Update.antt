-- ===== src/JailController/Update.antt =====
-- `handleUpdate` of the Jail reconciler: freebsd-update on a schedule, one member of a group at a
-- time.
use nodemanager.Common.{Bool, Duration, Io, Option, Result, [], ask, attempt, err, false}
use nodemanager.Common.{if◌then◌else◌, ignored, is_conflict, lift, ltb, negsuc, none, not, ok}
use nodemanager.Common.{on_error, perform, pure, raise, second, since_lt, some, sprint, true}
use nodemanager.Common.{until, wrap, ℕ, ◌*◌, ◌+◌, ◌-◌, ◌==◌, ◌>>=◌, ◌>>◌, ◌||◌, ◌∷◌}
use nodemanager.Api.{NamespacedName}
use nodemanager.JailController.{
  JailResource, Op, Outside, lock_for, locked, read_clock, start_jail, stop_jail, unlock,
  update_root, update_status_with_retry,
}

-- The time of the next run; the zero time is `none`.
abbrev pub Next : Type 0
Next = Option ℕ

abbrev pub forgiveness : ℕ
forgiveness = 60 * second

-- `lastUpdate != nil && time.Since(*lastUpdate) < delay`
unfoldable pub is_recent : ℕ → Option ℕ → Duration → Bool
is_recent now none delay = false
is_recent now (some t) delay = since_lt now t delay

-- `time.Since(next) < forgiveness`; the two other tests return alike.
unfoldable pub in_window : ℕ → Next → Bool
in_window now none = false
in_window now (some t) = ltb now (t + forgiveness)

abbrev pub ttl : ℕ → Option ℕ → Duration
ttl now none = negsuc 9223372036854775807
ttl now (some t) = until now t

module _ (o : Outside) (j : JailResource) where
  abbrev pub group_key : NamespacedName
  group_key = record { namespace = j.namespace; name = j.jail.spec.update.group }

  abbrev pub jail_key : NamespacedName
  jail_key = record { namespace = j.namespace; name = j.jail.name }

  abbrev pub in_group : Bool
  in_group = not (j.jail.spec.update.group == "")

  -- A lock that is held from the last update is released, and ends this turn.
  unfoldable pub release_turn : Io Op Bool
  release_turn =
      if in_group
      then (do
        held ← ask (locked group_key) o.is_locked
        if held
            then (do attempt (perform (unlock group_key) o.unlock_answer); pure true)
            else pure false)
      else pure false

  abbrev pub won : Result (Unit {0}) → Io Op Bool
  won (ok a) = pure true
  won (err e) =
      if is_conflict e
      then pure false
      else raise (wrap (sprint ("acquiring jail update lock for " ∷ j.jail.name ∷ [])) e)

  unfoldable pub take_turn : (ℕ → Option ℕ) → Io Op Bool
  take_turn schedule =
      if in_group
      then (do
        now ← ask read_clock o.clock
        now' ← ask read_clock o.clock
        r ← attempt (perform (lock_for group_key (ttl now' (schedule now))) o.lock_answer)
        won r)
      else pure true

  abbrev pub recorded : Next → Result (Unit {0}) → Io Op Next
  recorded next (err e) =
      raise (wrap (sprint ("freebsd-update failed for jail " ∷ j.jail.name ∷ [])) e)
  recorded next (ok a) = do
    now ← ask read_clock o.clock
    on_error (wrap "recording last update status") (
        update_status_with_retry o jail_key
          (λ fresh. record fresh { status = record fresh.status { last_update = some now } }))
    pure next

  abbrev pub update_stopped : Next → Io Op Next
  update_stopped next = do
    updated ← attempt (perform (update_root j.jail.name) o.manager_answer)
    ignored (perform (start_jail j.jail.name) o.manager_answer)
    recorded next updated

  -- The jail stops, its root is updated, and it starts again.
  unfoldable pub run_update : Next → Io Op Next
  run_update next = do
    on_error (wrap "stopping jail for update") (perform (stop_jail j.jail.name) o.manager_answer)
    update_stopped next

  abbrev pub if_won : Next → Bool → Io Op Next
  if_won next true = run_update next
  if_won next false = pure next

  abbrev pub contend : (ℕ → Option ℕ) → Next → Io Op Next
  contend schedule next = do mine ← take_turn schedule; if_won next mine

  abbrev pub turn : Duration → (ℕ → Option ℕ) → Next → Bool → Io Op Next
  turn delay schedule next true = pure next
  turn delay schedule next false = do
    now ← ask read_clock o.clock
    if is_recent now j.status.last_update delay then pure next else do
      now' ← ask read_clock o.clock
      if in_window now' next then contend schedule next else pure next

  unfoldable pub scheduled_update : Duration → (ℕ → Option ℕ) → Io Op Next
  scheduled_update delay schedule = do
    now ← ask read_clock o.clock
    released ← release_turn
    turn delay schedule (schedule (now - forgiveness)) released

  unfoldable pub handle_update : Io Op Next
  handle_update =
      if (j.jail.spec.update.schedule == "") || (j.jail.spec.update.delay == "")
      then pure none
      else do
        delay ←
            on_error (wrap "parsing jail update delay")
              (lift (o.parse_duration j.jail.spec.update.delay))
        schedule ←
            on_error (wrap "parsing jail update schedule")
              (lift (o.cron j.jail.spec.update.schedule))
        scheduled_update delay schedule
