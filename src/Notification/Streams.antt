-- ===== src/Notification/Streams.antt =====
-- Which streams are among the subscribers, and what reaches them.
use nodemanager.Common.{Bool, Bool-cases, Dict, NodupKeys, Option, String, [], arith, eq_iff}
use nodemanager.Common.{eq_refl, erase, false, inl, inr, insert, is_empty, lookup, lookup-erase}
use nodemanager.Common.{lookup-insert, none, not, refl, some, suc, true, ℕ, ◌==◌, ◌↔◌, ◌∷◌, ◌≡◌}
use nodemanager.Common.{◌≢◌, ◌≤◌}
use nodemanager.Notification.{
  Action, Reach, Server, Step, cancel_approval, cancels, deliver, delivers, disconnect, disconnects,
  drop_session, has_room, has_subscribers, new_server, notifies, notify, put, reply_capacity,
  respond_on, respond_to_approval, responds, starts, steps, subscribe, subscribes, take_reply,
  takes, wait_for_approval, waits,
}

-- A step in which no session connects twice.
abbrev pub IsOrderly : {s t : Server} → Step s t → Type 0
IsOrderly (subscribes id s) = (c : ℕ) → s.streams c ≢ some id
IsOrderly _ = Unit

abbrev pub AllOrderly : {s : Server} → Reach s → Type 0
AllOrderly starts = Unit
AllOrderly (steps s t earlier step) = AllOrderly earlier × IsOrderly step

-- The subscribers are the sessions of the streams, by their channels, and channels from `next` on
-- are not in use.
abbrev pub Registered : Server → Type 0
Registered s =
    ((id : String) (c : ℕ) → (lookup id s.subscribers ≡ some c) ↔ (s.streams c ≡ some id))
    × ((c : ℕ) → s.next ≤ c → s.streams c ≡ none)

subscribe-Registered :
    (id : String) (s : Server)
    → ((c : ℕ) → s.streams c ≢ some id)
    → Registered s
    → Registered (subscribe id s)
unfolding subscribe
subscribe-Registered id s new (same, unused) = (
  λ place c. (
    (λ p. ground (
      arith,
      lookup-insert id place s.next s.subscribers,
      eq_iff id place,
      (same place c).0,
      unused c,
    )),
    (λ p. ground (
      arith,
      lookup-insert id place s.next s.subscribers,
      eq_iff id place,
      (same place c).1,
      new c,
    )),
  ),
  λ c above. ground (arith, unused c),
)

disconnect_by :
    (c : ℕ) (s : Server) (session : Option String)
    → s.streams c ≡ session
    → Registered s
    → Registered (record s {
      subscribers = drop_session session s.subscribers;
      streams = put c none s.streams;
    })
disconnect_by c s none closed (same, unused) = (
  λ id d. ((λ p. ground (arith, (same id d).0, closed)), (λ p. ground (arith, (same id d).1))),
  λ d above. ground (arith, unused d),
)
disconnect_by c s (some session) opened (same, unused) = (
  λ id d. (
    (λ p. ground (
      arith,
      lookup-erase session id s.subscribers,
      eq_iff session id,
      (same id d).0,
      (same session c).1,
      opened,
    )),
    (λ p. ground (
      arith,
      lookup-erase session id s.subscribers,
      eq_iff session id,
      (same id d).1,
      (same session c).1,
      (same session d).1,
      opened,
    )),
  ),
  λ d above. ground (arith, unused d),
)

disconnect-Registered : (c : ℕ) (s : Server) → Registered s → Registered (disconnect c s)
unfolding disconnect
disconnect-Registered c s (same, unused) = disconnect_by c s (s.streams c) refl (same, unused)

abbrev pub Good : Server → Type 0
Good s = Registered s × NodupKeys s.subscribers

nodup-insert : (key : String) (new : ℕ) (m : Dict ℕ) → NodupKeys m → NodupKeys (insert key new m)
unfolding insert lookup
nodup-insert key new [] once = (refl, tt)
nodup-insert key new ((name, c) ∷ m) (fresh, once) = elim (Bool-cases (name == key)) [
  | inl same ↦ rw same (fresh, once)
  | inr differ ↦ rw differ (
    ground (arith, lookup-insert key name new m, eq_iff key name, eq_iff name key),
    nodup-insert key new m once,
  )
]

nodup-erase : (key : String) (m : Dict ℕ) → NodupKeys m → NodupKeys (erase key m)
unfolding erase lookup
nodup-erase key [] once = tt
nodup-erase key ((name, c) ∷ m) (fresh, once) = elim (Bool-cases (name == key)) [
  | inl same ↦ rw same (nodup-erase key m once)
  | inr differ ↦
      rw differ (ground (arith, lookup-erase key name m, eq_iff key name), nodup-erase key m once)
]

nodup-drop :
    (session : Option String) (m : Dict ℕ) → NodupKeys m → NodupKeys (drop_session session m)
nodup-drop none m once = once
nodup-drop (some id) m once = nodup-erase id m once

respond-Good : (c : Option ℕ) (a : Action) (s : Server) → Good s → Good (respond_on c a s).1
respond-Good none a s good = good
respond-Good (some c) a s good = elim (Bool-cases (has_room reply_capacity c s.replies)) [
  | inr full ↦ rw full good
  | inl free ↦ rw free good
]

unused_next : (s : Server) → Registered s → Registered (record s { next = suc s.next })
unused_next s (same, unused) = (same, λ c above. unused c (omega arith))

step-Good : (s t : Server) (step : Step s t) → IsOrderly step → Good s → Good t
unfolding subscribe disconnect deliver notify wait_for_approval cancel_approval respond_to_approval
    take_reply
step-Good s _ (subscribes id _) orderly (registered, once) =
    (subscribe-Registered id s orderly registered, nodup-insert id s.next s.subscribers once)
step-Good s _ (disconnects c _) orderly (registered, once) =
    (disconnect-Registered c s registered, nodup-drop (s.streams c) s.subscribers once)
step-Good s _ (delivers c _) orderly good = good
step-Good s _ (notifies e _) orderly good = good
step-Good s _ (waits id _) orderly ((same, unused), once) =
    ((same, λ c above. unused c (omega arith)), once)
step-Good s _ (cancels id _) orderly good = good
step-Good s _ (responds id a _) orderly good = respond-Good (lookup id s.approvals) a s good
step-Good s _ (takes c _) orderly good = good

pub reach-Good : (s : Server) (reached : Reach s) → AllOrderly reached → Good s
unfolding new_server lookup
reach-Good s starts orderly = (((λ id c. ((λ p. cc), (λ p. cc))), (λ c above. refl)), tt)
reach-Good s (steps before _ earlier step) (first, last) =
    step-Good before s step last (reach-Good before earlier first)

some_entry : (m : Dict ℕ) → is_empty m ≡ false → (id : String) × (c : ℕ) × (lookup id m ≡ some c)
unfolding lookup
some_entry [] p = cc
some_entry ((id, c) ∷ m) p = (id, c, rw (eq_refl id) refl)

not_empty : (m : Dict ℕ) (id : String) (c : ℕ) → lookup id m ≡ some c → is_empty m ≡ false
unfolding lookup
not_empty [] id c p = cc
not_empty (e ∷ m) id c p = refl

-- In every state that calls lead to in which no session connects while it is connected, the
-- subscriber of a session is the channel of the stream of this session, and HasSubscribers is true
-- exactly if there is a stream.
pub subscribers_are_streams :
    (s : Server) (reached : Reach s)
    → AllOrderly reached
    → ((id : String) (c : ℕ) → (lookup id s.subscribers ≡ some c) ↔ (s.streams c ≡ some id))
      × ((has_subscribers s ≡ true) ↔ ((c : ℕ) × (id : String) × (s.streams c ≡ some id)))
unfolding has_subscribers
subscribers_are_streams s reached orderly =
    let ((same, unused), once) = reach-Good s reached orderly in
    (
      same,
      (
        (λ p.
            let (id, c, there) = some_entry s.subscribers (not_true (is_empty s.subscribers) p) in
            (c, id, (same id c).0 there)),
        (λ (c, id, there). rw (not_empty s.subscribers id c ((same id c).1 there)) refl),
      ),
    )
  where
    not_true : (b : Bool) → not b ≡ true → b ≡ false
    not_true true p = cc
    not_true false p = refl
