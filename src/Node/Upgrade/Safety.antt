-- ===== src/Node/Upgrade/Safety.antt =====
-- What has happened before `handleUpgrade` touches the packages of a node.
use nodemanager.Common.{Bool, Bool-cases, Duration, List, Option, Option-cases, Result}
use nodemanager.Common.{Result-cases, Sometime, [], arith, false, found, inl, inr, lift, lookup}
use nodemanager.Common.{ne_of_test, none, ok, on_error, refl, some, suc, true, wrap, ℕ, ◌==◌}
use nodemanager.Common.{◌>>=◌, ◌∙◌, ◌∷◌, ◌≡◌, ◌≢◌, ◌⊎◌}
use nodemanager.Api.{ManagedNode, NamespacedName}
use nodemanager.Node.{
  Op, Outside, await_reply, lock_for, read_clock, reboot, upgrade_packages, upgrade_system,
}
use nodemanager.Node.Approval.{decide, request_upgrade_approval}
use nodemanager.Node.Upgrade.{
  Next, annotation_upgrade_hold, group_key, handle_upgrade, if_agreed, in_group, in_window,
  is_agreed, is_recent, last_upgrade_time, release_turn, run_upgrade, scheduled_upgrade, take_turn,
  turn, when_due,
}

-- How many calls upgraded packages or the system, or rebooted the machine.
abbrev pub touches : List Op → ℕ
touches [] = 0
touches (upgrade_packages ∷ h) = suc (touches h)
touches (upgrade_system ∷ h) = suc (touches h)
touches (reboot ∷ h) = suc (touches h)
touches (_ ∷ h) = touches h

-- A request for approval ended well.
abbrev pub IsApproval : Outside → Op → List Op → Type 0
IsApproval o await_reply h = decide (o.reply h) ≡ ok true
IsApproval o _ h = ⊥

abbrev pub Approved : Outside → List Op → Type 0
Approved o = Sometime (IsApproval o)

-- The lock was asked for and granted.
abbrev pub IsGrant : Outside → NamespacedName → Op → List Op → Type 0
IsGrant o key (lock_for k d) h = (k ≡ key) × (o.lock_answer h ≡ ok tt)
IsGrant o key _ h = ⊥

abbrev pub LockGranted : Outside → NamespacedName → List Op → Type 0
LockGranted o key = Sometime (IsGrant o key)

module _ (o : Outside) (node : ManagedNode) where
  release_turn-touches : (h : List Op) → touches (release_turn o node h).1 ≡ touches h
  unfolding release_turn
  release_turn-touches h = ground arith

  is_agreed-touches : (t : ℕ) (h : List Op) → touches (is_agreed o node t h).1 ≡ touches h
  unfolding is_agreed request_upgrade_approval decide
  is_agreed-touches t h = ground arith

  take_turn-touches :
      (schedule : ℕ → Option ℕ) (h : List Op) → touches (take_turn o node schedule h).1 ≡ touches h
  unfolding take_turn
  take_turn-touches schedule h = ground arith

  is_agreed-Approved :
      (t : ℕ) (h : List Op)
      → (is_agreed o node t h).0 ≡ ok true
      → o.has_notifier ≡ true
      → Approved o (is_agreed o node t h).1
  unfolding is_agreed request_upgrade_approval decide
  is_agreed-Approved t h agreed notifier = ground arith

  take_turn-Approved :
      (schedule : ℕ → Option ℕ) (h : List Op)
      → Approved o h
      → Approved o (take_turn o node schedule h).1
  unfolding take_turn
  take_turn-Approved schedule h a = ground arith

  take_turn-LockGranted :
      (schedule : ℕ → Option ℕ) (h : List Op)
      → (take_turn o node schedule h).0 ≡ ok true
      → in_group o node ≡ true
      → LockGranted o (group_key o node) (take_turn o node schedule h).1
  unfolding take_turn
  take_turn-LockGranted schedule h mine group = ground arith

module _ (o : Outside) (node : ManagedNode) (fuel : ℕ) where
  -- Either nothing was upgraded or rebooted, or the run is the upgrade, started after calls that
  -- agreed to it and took the lock of the group.
  abbrev Outcome : Result Next × List Op → List Op → Type 0
  Outcome run h =
      (touches run.1 ≡ touches h)
      ⊎ ((before : List Op) × (run ≡ run_upgrade o node fuel before)
          × (touches before ≡ touches h)
          × (o.has_notifier ≡ true → Approved o before)
          × (in_group o node ≡ true → LockGranted o (group_key o node) before))

  Outcome-of_upgrades :
      (run : Result Next × List Op) (h h1 : List Op)
      → touches h1 ≡ touches h
      → Outcome run h1
      → Outcome run h
  Outcome-of_upgrades run h h1 same (inl unchanged) = inl (unchanged ∙ same)
  Outcome-of_upgrades run h h1 same (inr (before, is, since, agreed, mine)) =
      inr (before, is, since ∙ same, agreed, mine)

  if_agreed-Outcome :
      (schedule : ℕ → Option ℕ) (next : Next) (h : List Op)
      → (o.has_notifier ≡ true → Approved o h)
      → Outcome (if_agreed o node fuel schedule next true h) h
  if_agreed-Outcome schedule next h approved =
      let same : touches (take_turn o node schedule h).1 ≡ touches h =
        take_turn-touches o node schedule h in
      elim (Result-cases (take_turn o node schedule h).0) [
        | inr (e, failed) ↦ inl (rw failed same)
        | inl (false, mine) ↦ inl (rw mine same)
        | inl (true, mine) ↦ inr (
          (take_turn o node schedule h).1,
          rw mine,
          same,
          λ notifier. take_turn-Approved o node schedule h (approved notifier),
          take_turn-LockGranted o node schedule h mine,
        )
      ]

  when_due-Outcome :
      (schedule : ℕ → Option ℕ) (next : Next) (h : List Op)
      → Outcome (when_due o node fuel schedule next h) h
  when_due-Outcome schedule none h = inl refl
  when_due-Outcome schedule (some t) h =
      let same : touches (is_agreed o node t h).1 ≡ touches h = is_agreed-touches o node t h in
      elim (Result-cases (is_agreed o node t h).0) [
        | inr (e, failed) ↦ inl (rw failed same)
        | inl (false, agreed) ↦ inl (rw agreed same)
        | inl (true, agreed) ↦ rw agreed (
            Outcome-of_upgrades _ h (is_agreed o node t h).1 same
              (if_agreed-Outcome schedule (some t) _ (is_agreed-Approved o node t h agreed)))
      ]

  turn-Outcome :
      (delay : Duration) (schedule : ℕ → Option ℕ) (next : Next) (last : Option ℕ) (released : Bool)
      (h : List Op)
      → Outcome (turn o node fuel delay schedule next last released h) h
  turn-Outcome delay schedule next last true h = inl refl
  turn-Outcome delay schedule next last false h =
      elim (Bool-cases (is_recent (o.clock h) last delay)) [
        | inl recent ↦ inl (rw recent)
        | inr due ↦
            elim (Bool-cases (in_window (o.clock (read_clock ∷ h)) next o.forgiveness_period)) [
              | inr late ↦ inl (rw (due, late))
              | inl now ↦
                  rw (due, now) (when_due-Outcome schedule next (read_clock ∷ read_clock ∷ h))
            ]
      ]

  scheduled_upgrade-Outcome :
      (delay : Duration) (schedule : ℕ → Option ℕ) (h : List Op)
      → Outcome (scheduled_upgrade o node fuel delay schedule h) h
  unfolding scheduled_upgrade
  scheduled_upgrade-Outcome delay schedule h =
      let h1 : List Op = read_clock ∷ h in
      let same : touches (release_turn o node h1).1 ≡ touches h = release_turn-touches o node h1 in
      elim (Result-cases (last_upgrade_time o node)) [
        | inr (e, failed) ↦ inl (rw failed)
        | inl (last, known) ↦ elim (Result-cases (release_turn o node h1).0) [
          | inr (e, failed) ↦ inl (rw (known, failed) same)
          | inl (released, done) ↦
              rw (known, done)
                (Outcome-of_upgrades _ h (release_turn o node h1).1 same
                  (turn-Outcome delay schedule _ last released (release_turn o node h1).1))
        ]
      ]

  started :
      (run : Result Next × List Op)
      → touches run.1 ≢ 0
      → Outcome run []
      → ((before : List Op) × (run ≡ run_upgrade o node fuel before)
          × (touches before ≡ 0)
          × (o.has_notifier ≡ true → Approved o before)
          × (in_group o node ≡ true → LockGranted o (group_key o node) before))
  started run upgraded (inl unchanged) = absurd (upgraded unchanged)
  started run upgraded (inr found) = found

  -- The part below the three guards.
  abbrev below_guards : Result Next × List Op
  below_guards =
      (do
        delay ←
            on_error (wrap "failed to parse upgrade delay")
              (lift (o.parse_duration node.upgrade.delay))
        schedule ←
            on_error (wrap "failed to parse upgrade schedule") (lift (o.cron node.upgrade.schedule))
        scheduled_upgrade o node fuel delay schedule)
        []

  below_guards-Outcome : Outcome below_guards []
  below_guards-Outcome = elim (Result-cases (o.parse_duration node.upgrade.delay)) [
    | inr (e, failed) ↦ inl (rw failed)
    | inl (delay, parsed) ↦ elim (Result-cases (o.cron node.upgrade.schedule)) [
      | inr (e, failed) ↦ inl (rw (parsed, failed))
      | inl (schedule, found) ↦ rw (parsed, found) (scheduled_upgrade-Outcome delay schedule [])
    ]
  ]

  -- If `handleUpgrade` upgrades packages or the system, or reboots, then the node has no hold
  -- annotation, a schedule and a delay, and the run is the upgrade started after calls among which,
  -- with a notifier, a request for approval ended well, and, with an upgrade group, the lock of the
  -- group was granted.
  pub handle_upgrade_cleared :
      touches (handle_upgrade o node fuel []).1 ≢ 0
      → (lookup annotation_upgrade_hold node.annotations ≡ none)
        × (node.upgrade.schedule ≢ "")
        × (node.upgrade.delay ≢ "")
        × ((before : List Op) × (handle_upgrade o node fuel [] ≡ run_upgrade o node fuel before)
            × (touches before ≡ 0)
            × (o.has_notifier ≡ true → Approved o before)
            × (in_group o node ≡ true → LockGranted o (group_key o node) before))
  unfolding handle_upgrade
  handle_upgrade_cleared upgraded =
      elim (Option-cases (lookup annotation_upgrade_hold node.annotations)) [
        | inr (v, held) ↦ absurd (upgraded (rw held))
        | inl free ↦ elim (Bool-cases (node.upgrade.schedule == "")) [
          | inl none_set ↦ absurd (upgraded (rw (free, none_set)))
          | inr scheduled ↦ elim (Bool-cases (node.upgrade.delay == "")) [
            | inl none_set ↦ absurd (upgraded (rw (free, scheduled, none_set)))
            | inr delayed ↦ (
              free,
              ne_of_test _ _ scheduled,
              ne_of_test _ _ delayed,
              rw (free, scheduled, delayed)
                  (started below_guards (rw (free, scheduled, delayed) at upgraded)
                    below_guards-Outcome),
            )
          ]
        ]
      ]
