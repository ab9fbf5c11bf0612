-- ===== src/Locker/Release.antt =====
-- What `Unlock` leaves behind, and what the next `LockFor` makes of it.
use nodemanager.Common.{Duration, List, String, already_exists, arith, err, false}
use nodemanager.Common.{if◌then◌else◌, ltb, none, ok, pos, second, some, suc, true, ℕ, ◌*◌, ◌+◌}
use nodemanager.Common.{◌∙◌, ◌≡◌, ◌≤◌}
use nodemanager.Api.{NamespacedName}
use nodemanager.Locker.{
  Lease, Op, Outside, conflict_error, expired, held_by_other, inspect, lock_for, lock_rounds,
  release, two_hours,
}

-- A lease for `n` seconds that was released at `t` has run out for everybody, once more than `n`
-- seconds less two hours have passed; until then everybody finds it held by another.
inspect-release :
    (id : String) (t now n : ℕ) (lease : Lease)
    → lease.lease_duration_seconds ≡ some (pos n)
    → two_hours ≤ t
    → inspect id now (release t lease)
      ≡ (if ltb (t + n * second) (now + two_hours) then expired else held_by_other)
unfolding inspect release
inspect-release id t now n lease lasts late = ground arith

not_ltb : (a b : ℕ) → b ≤ a → ltb a b ≡ false
not_ltb a b h = ground arith

module _ (o : Outside) (key : NamespacedName) where
  -- A lease for `n` seconds that its holder released at `t`, and that every creation and every read
  -- meets, is refused to the next one: while every reading of the clock is at most `n` seconds less
  -- two hours after `t`, and neither the context nor the backoff has ended, `LockFor` ends in a
  -- conflict.
  pub released_lease_refused :
      (fuel t n : ℕ) (lease : Lease) (duration : Duration) (h : List Op) (text : String)
      → lease.lease_duration_seconds ≡ some (pos n)
      → two_hours ≤ t
      → ((h' : List Op) → o.context_error h' ≡ none)
      → ((h' : List Op) → o.create_answer h' ≡ err (record { kind = already_exists; text = text }))
      → ((h' : List Op) → o.is_ongoing h' ≡ true)
      → ((h' : List Op) → o.get_answer h' ≡ ok (release t lease))
      → ((h' : List Op) → o.clock h' + two_hours ≤ t + n * second)
      → (lock_for o key (suc fuel) duration h).0
        ≡ err (conflict_error "lock held by another instance and not expired")
  unfolding lock_for lock_rounds
  released_lease_refused fuel t n lease duration h text lasts late live exists on got early =
      let refused : (h' : List Op) → inspect o.id (o.clock h') (release t lease) ≡ held_by_other =
        λ h'.
          inspect-release o.id t (o.clock h') n lease lasts late ∙ rw (not_ltb _ _ (early h')) in
      rw (live, exists, on, got) (rw refused)
