-- ===== src/JailController/Steps.antt =====
-- What the phases of the Jail reconciler keep true of the log, for every statement that all but a
-- few calls keep.
use nodemanager.Common.{Bool, Duration, IsRetry, List, Option, Preserves, Result, ask, err}
use nodemanager.Common.{false, is_conflict, none, of_attempt, of_bind, of_call, of_error, of_if}
use nodemanager.Common.{of_pure, of_retry, of_then, ok, perform, some, true, wrap, ℕ, ◌-◌, ◌∷◌}
use nodemanager.Api.{NamespacedName}
use nodemanager.JailController.{
  JailResource, Op, Outside, delete_jail, get_jail, lock_for, locked, read_clock, stop_jail, unlock,
  update_jail, update_root, update_status, update_status_with_retry,
}
use nodemanager.JailController.Update.{
  Next, contend, forgiveness, group_key, handle_update, if_won, in_group, in_window, is_recent,
  jail_key, recorded, release_turn, run_update, scheduled_update, take_turn, ttl, turn, won,
}

-- Calls that neither delete or change a jail, nor stop or update it.
abbrev pub IsHarmless : Op → Type 0
IsHarmless (delete_jail j) = ⊥
IsHarmless (update_jail j) = ⊥
IsHarmless (stop_jail name) = ⊥
IsHarmless (update_root name) = ⊥
IsHarmless op = Unit

abbrev pub IsClosed : (List Op → Type 0) → Type 0
IsClosed Q = (op : Op) (h : List Op) → IsHarmless op → Q h → Q (op ∷ h)

module _ (o : Outside) (Q : List Op → Type 0) (closed : IsClosed Q)
    (is : IsRetry o.retry_on_conflict) where
  pub call :
      {A : Type 0} (op : Op) (answer : List Op → Result A)
      → IsHarmless op
      → Preserves Q (perform op answer)
  call op answer harmless = of_call op answer (λ h. closed op h harmless)

  pub asked :
      {A : Type 0} (op : Op) (answer : List Op → A) → IsHarmless op → Preserves Q (ask op answer)
  asked op answer harmless = call op (λ h. ok (answer h)) harmless

  pub update_status_with_retry-Preserves :
      (key : NamespacedName) (mutate : JailResource → JailResource)
      → Preserves Q (update_status_with_retry o key mutate)
  unfolding update_status_with_retry
  update_status_with_retry-Preserves key mutate = of_retry is (
      of_bind (call (get_jail key) o.jail_answer tt)
        (λ fresh. call (update_status (mutate fresh)) o.write_answer tt))

  module _ (j : JailResource) where
    release_turn-Preserves : Preserves Q (release_turn o j)
    unfolding release_turn
    release_turn-Preserves =
        of_if (in_group o j)
          (of_bind (asked (locked (group_key o j)) o.is_locked tt) (λ held.
            of_if held
              (of_then (of_attempt (call (unlock (group_key o j)) o.unlock_answer tt))
                (of_pure {r = ok true}))
              (of_pure {r = ok false})))
          (of_pure {r = ok false})

    won-Preserves : (r : Result (Unit {0})) → Preserves Q (won o j r)
    won-Preserves (ok a) = of_pure
    won-Preserves (err e) = of_if (is_conflict e) of_pure of_pure

    pub take_turn-Preserves : (schedule : ℕ → Option ℕ) → Preserves Q (take_turn o j schedule)
    unfolding take_turn
    take_turn-Preserves schedule =
        of_if (in_group o j)
          (of_bind (asked read_clock o.clock tt) (λ now.
            of_bind (asked read_clock o.clock tt) (λ now'.
              of_bind
                (of_attempt
                  (call (lock_for (group_key o j) (ttl now' (schedule now))) o.lock_answer tt))
                (λ r. won-Preserves r))))
          (of_pure {r = ok true})

    pub recorded-Preserves :
        (next : Next) (r : Result (Unit {0})) → Preserves Q (recorded o j next r)
    recorded-Preserves next (err e) = of_pure
    recorded-Preserves next (ok a) = of_bind (asked read_clock o.clock tt) (λ now.
        of_then
          (of_error (wrap "recording last update status") (
            update_status_with_retry-Preserves (jail_key o j)
              (λ fresh. record fresh { status = record fresh.status { last_update = some now } })))
          (of_pure {r = ok next}))

    if_won-Preserves :
        ((next : Next) → Preserves Q (run_update o j next))
        → (next : Next) (mine : Bool) → Preserves Q (if_won o j next mine)
    if_won-Preserves run next true = run next
    if_won-Preserves run next false = of_pure

    pub contend-Preserves :
        ((next : Next) → Preserves Q (run_update o j next))
        → (schedule : ℕ → Option ℕ) (next : Next) → Preserves Q (contend o j schedule next)
    contend-Preserves run schedule next =
        of_bind (take_turn-Preserves schedule) (λ mine. if_won-Preserves run next mine)

    module _
        (run : (schedule : ℕ → Option ℕ) (next : Next)
          → Preserves Q (contend o j schedule next)) where
      turn-Preserves :
          (delay : Duration) (schedule : ℕ → Option ℕ) (next : Next) (released : Bool)
          → Preserves Q (turn o j delay schedule next released)
      turn-Preserves delay schedule next true = of_pure
      turn-Preserves delay schedule next false = of_bind (asked read_clock o.clock tt) (λ now.
          of_if (is_recent now j.status.last_update delay) (of_pure {r = ok next}) (
            of_bind (asked read_clock o.clock tt)
              (λ now'. of_if (in_window now' next) (run schedule next) (of_pure {r = ok next}))))

      pub handle_update-Preserves : Preserves Q (handle_update o j)
      unfolding handle_update scheduled_update
      handle_update-Preserves = of_if _ (of_pure {r = ok none}) (
          of_bind
            (of_error (wrap "parsing jail update delay")
              (of_pure {r = o.parse_duration j.jail.spec.update.delay}))
            (λ delay.
              of_bind
                (of_error (wrap "parsing jail update schedule")
                  (of_pure {r = o.cron j.jail.spec.update.schedule}))
                (λ schedule. of_bind (asked read_clock o.clock tt) (λ now.
                  of_bind release_turn-Preserves (λ released.
                    turn-Preserves delay schedule (schedule (now - forgiveness)) released)))))
