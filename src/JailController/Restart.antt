-- ===== src/JailController/Restart.antt =====
-- A jail that stops for an update starts again, and is updated while it is stopped and in its turn.
use nodemanager.Common.{Bool, Bool-cases, IsRetry, List, Option, Preserves, Result}
use nodemanager.Common.{Result-cases, Sometime, String, [], arith, eq_iff, eq_refl, err, false}
use nodemanager.Common.{if◌then◌else◌, inl, inr, is_ok, ok, refl, true, ℕ, ◌&&◌, ◌==◌, ◌||◌}
use nodemanager.Common.{◌∷◌, ◌≡◌, ◌≢◌, ◌⊎◌}
use nodemanager.Api.{NamespacedName}
use nodemanager.JailController.{
  JailResource, Op, Outside, lock_for, start_jail, stop_jail, update_root,
}
use nodemanager.JailController.Steps.{
  IsClosed, contend-Preserves, handle_update-Preserves, recorded-Preserves, take_turn-Preserves,
}
use nodemanager.JailController.Update.{
  Next, contend, group_key, handle_update, in_group, run_update, take_turn, update_stopped,
}

-- Whether a stop of the jail that succeeded has no call behind it that starts the jail.
abbrev pub awaits_start : Outside → String → List Op → Bool
awaits_start o name [] = false
awaits_start o name (start_jail jail ∷ h) =
    let before = awaits_start o name h in if jail == name then false else before
awaits_start o name (stop_jail jail ∷ h) =
    ((jail == name) && is_ok (o.manager_answer h)) || awaits_start o name h
awaits_start o name (_ ∷ h) = awaits_start o name h

abbrev pub IsGrant : Outside → NamespacedName → Op → List Op → Type 0
IsGrant o key (lock_for k d) h = (k ≡ key) × (o.lock_answer h ≡ ok tt)
IsGrant o key _ h = ⊥

-- Each update of the root stands while the jail is stopped, after the lock of its group, if it has
-- one, was granted.
abbrev pub InTurn : Outside → JailResource → List Op → Type 0
InTurn o j [] = Unit
InTurn o j (update_root name ∷ h) =
    (name ≡ j.jail.name)
    × (awaits_start o name h ≡ true)
    × (j.jail.spec.update.group ≢ ""
        → Sometime (IsGrant o (record { namespace = j.namespace; name = j.jail.spec.update.group }))
            h)
    × InTurn o j h
InTurn o j (_ ∷ h) = InTurn o j h

abbrev IsUp : Outside → String → List Op → Type 0
IsUp o name h = awaits_start o name h ≡ false

IsUp-closed : (o : Outside) (name : String) → IsClosed (IsUp o name)
IsUp-closed o name op h harmless q = ground arith

turn_closed : (o : Outside) (j : JailResource) → IsClosed (InTurn o j)
turn_closed o j op h harmless q = ground arith

grouped : (o : Outside) (j : JailResource) → j.jail.spec.update.group ≢ "" → in_group o j ≡ true
grouped o j named = ground (arith, eq_iff j.jail.spec.update.group "")

module _ (o : Outside) (is : IsRetry o.retry_on_conflict) where
  update_stopped-IsUp :
      (name : String) (j : JailResource) (next : Next) (h : List Op)
      → (j.jail.name == name) ≡ true ⊎ IsUp o name h
      → IsUp o name (update_stopped o j next h).1
  update_stopped-IsUp name j next h up =
      (recorded-Preserves o (IsUp o name) (IsUp-closed o name) is j next
          (o.manager_answer h)).preserves
        (start_jail j.jail.name ∷ update_root j.jail.name ∷ h) (ground arith)

  after_stop :
      (name : String) (j : JailResource) (next : Next) (h : List Op) (r : Result (Unit {0}))
      → o.manager_answer h ≡ r
      → IsUp o name h
      → IsUp o name (run_update o j next h).1
  unfolding run_update
  after_stop name j next h (err e) answered up = elim (Bool-cases (j.jail.name == name)) [
    | inl same ↦ rw answered (rw (same, answered) up)
    | inr differ ↦ rw answered (rw differ up)
  ]
  after_stop name j next h (ok u) answered up = rw answered (
      update_stopped-IsUp name j next (stop_jail j.jail.name ∷ h)
        (elim (Bool-cases (j.jail.name == name)) [
          | inl same ↦ inl same
          | inr differ ↦ inr (rw differ up)
        ]))

  run_update-IsUp :
      (name : String) (j : JailResource) (next : Next)
      → Preserves (IsUp o name) (run_update o j next)
  run_update-IsUp name j next = record {
    preserves = λ h up. after_stop name j next h (o.manager_answer h) refl up;
  }

  -- If conflicts are retried the way client-go documents, then a jail of which no stop waits for a
  -- start before handleUpdate has none after it: behind each stop of the jail that succeeded there
  -- is a call that starts the same jail, whatever freebsd-update and the writes of the status
  -- answer.
  pub handle_update_restarts :
      (name : String) (j : JailResource) (h : List Op)
      → awaits_start o name h ≡ false
      → awaits_start o name (handle_update o j h).1 ≡ false
  handle_update_restarts name j h up =
      (handle_update-Preserves o (IsUp o name) (IsUp-closed o name) is j (
          contend-Preserves o (IsUp o name) (IsUp-closed o name) is j
            (run_update-IsUp name j))).preserves
        h up

  take_turn_granted :
      (j : JailResource) (schedule : ℕ → Option ℕ) (h : List Op)
      → (take_turn o j schedule h).0 ≡ ok true
      → in_group o j ≡ true
      → Sometime (IsGrant o (group_key o j)) (take_turn o j schedule h).1
  unfolding take_turn
  take_turn_granted j schedule h mine group = ground arith

  update_stopped-InTurn :
      (j : JailResource) (next : Next) (h : List Op)
      → awaits_start o j.jail.name h ≡ true
      → (in_group o j ≡ true → Sometime (IsGrant o (group_key o j)) h)
      → InTurn o j h
      → InTurn o j (update_stopped o j next h).1
  update_stopped-InTurn j next h stopped granted q =
      (recorded-Preserves o (InTurn o j) (turn_closed o j) is j next (o.manager_answer h)).preserves
        (start_jail j.jail.name ∷ update_root j.jail.name ∷ h)
        (refl, stopped, (λ named. granted (grouped o j named)), q)

  granted_update :
      (j : JailResource) (next : Next) (h : List Op) (r : Result (Unit {0}))
      → o.manager_answer h ≡ r
      → (in_group o j ≡ true → Sometime (IsGrant o (group_key o j)) h)
      → InTurn o j h
      → InTurn o j (run_update o j next h).1
  unfolding run_update
  granted_update j next h (err e) answered granted q = rw answered q
  granted_update j next h (ok u) answered granted q = rw answered (
      update_stopped-InTurn j next (stop_jail j.jail.name ∷ h)
        (rw (answered, eq_refl j.jail.name) refl) (λ group. inr (granted group)) q)

  contend-InTurn :
      (j : JailResource) (schedule : ℕ → Option ℕ) (next : Next)
      → Preserves (InTurn o j) (contend o j schedule next)
  contend-InTurn j schedule next = record {
    preserves = λ h q.
        let later : InTurn o j (take_turn o j schedule h).1 =
          (take_turn-Preserves o (InTurn o j) (turn_closed o j) is j schedule).preserves h q in
        elim (Result-cases (take_turn o j schedule h).0) [
          | inr (e, failed) ↦ rw failed later
          | inl (false, lost) ↦ rw lost later
          | inl (true, mine) ↦
              rw mine (granted_update j next _ _ refl (take_turn_granted j schedule h mine) later)
        ];
  }

  -- If conflicts are retried the way client-go documents, then each freebsd-update that
  -- handleUpdate runs is on the root of the jail, after a successful stop of this jail with no
  -- start of it since, and, if the jail has an update group, after LockFor granted the lock of the
  -- group.
  pub handle_update-InTurn :
      (j : JailResource) (h : List Op) → InTurn o j h → InTurn o j (handle_update o j h).1
  handle_update-InTurn j h q =
      (handle_update-Preserves o (InTurn o j) (turn_closed o j) is j (contend-InTurn j)).preserves h
        q
