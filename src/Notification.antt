-- ===== src/Notification.antt =====
-- internal/notification/server.go: subscribers and approvals as channels with capacities. Channels
-- are numbered in the order in which they are made, and a stream is named by its channel; the
-- socket, the transport and the ids and times of events are left out.
pub mod Streams
pub mod Delivery
use nodemanager.Common.{Bool, Dict, List, Option, String, [], erase, if◌then◌else◌, insert}
use nodemanager.Common.{is_empty, length, lookup, ltb, nat_eq, none, not, some, suc, ℕ, ◌++◌}
use nodemanager.Common.{◌∷◌}
use nodemanager.Node.{Action, Event}

-- A channel's content, the oldest first.
abbrev pub Channels : Type 0 → Type 0
Channels A = ℕ → List A

-- `streams` has the session of each stream that a goroutine of `Subscribe` serves.
pub record Server : Type 0 where
  pub subscribers : Dict ℕ
  pub approvals : Dict ℕ
  pub events : Channels Event
  pub replies : Channels Action
  pub streams : ℕ → Option String
  pub next : ℕ

abbrev pub event_capacity : ℕ
event_capacity = 64

abbrev pub reply_capacity : ℕ
reply_capacity = 1

abbrev pub put : {A : Type 0} → ℕ → A → (ℕ → A) → ℕ → A
put c a f d = if nat_eq c d then a else f d

module _ {A : Type 0} where
  abbrev pub has_room : ℕ → ℕ → Channels A → Bool
  has_room capacity c q = ltb (length (q c)) capacity

  -- `select` with a send and a default: dropped if the channel is full.
  unfoldable pub try_send : ℕ → ℕ → A → Channels A → Channels A
  try_send capacity c a q = if has_room capacity c q then put c (q c ++ a ∷ []) q else q

  abbrev pub rest_of : List A → List A
  rest_of [] = []
  rest_of (a ∷ rest) = rest

  -- A receive.
  unfoldable pub receive : ℕ → Channels A → Channels A
  receive c q = put c (rest_of (q c)) q

unfoldable pub new_server : Server
new_server = record {
  subscribers = [];
  approvals = [];
  events = λ c. [];
  replies = λ c. [];
  streams = λ c. none;
  next = 0;
}

-- The part of `Subscribe` before its loop.
unfoldable pub subscribe : String → Server → Server
subscribe id s = record s {
  subscribers = insert id s.next s.subscribers;
  events = put s.next [] s.events;
  streams = put s.next (some id) s.streams;
  next = suc s.next;
}

abbrev pub drop_session : Option String → Dict ℕ → Dict ℕ
drop_session none m = m
drop_session (some id) m = erase id m

-- The deferred part of `Subscribe`, for the stream of a channel.
unfoldable pub disconnect : ℕ → Server → Server
disconnect c s = record s {
  subscribers = drop_session (s.streams c) s.subscribers;
  streams = put c none s.streams;
}

-- A round of the loop of `Subscribe`.
unfoldable pub deliver : ℕ → Server → Server
deliver c s = record s { events = receive c s.events }

unfoldable pub send_all : Dict ℕ → Event → Channels Event → Channels Event
send_all [] e q = q
send_all ((id, c) ∷ subscribers) e q = send_all subscribers e (try_send event_capacity c e q)

unfoldable pub notify : Event → Server → Server
notify e s = record s { events = send_all s.subscribers e s.events }

-- The channel that is returned is `next` of the server before.
unfoldable pub wait_for_approval : String → Server → Server
wait_for_approval id s = record s {
  approvals = insert id s.next s.approvals;
  replies = put s.next [] s.replies;
  next = suc s.next;
}

unfoldable pub cancel_approval : String → Server → Server
cancel_approval id s = record s { approvals = erase id s.approvals }

-- The `Accepted` and `Reason` of an acknowledgement.
pub data Ack : Type 0 where
  accepted : Ack
  rejected : (reason : String) → Ack

abbrev pub respond_on : Option ℕ → Action → Server → Ack × Server
respond_on none a s = (rejected "no pending approval for this event ID", s)
respond_on (some c) a s =
    if has_room reply_capacity c s.replies
    then (accepted, record s { replies = try_send reply_capacity c a s.replies })
    else (rejected "approval already received", s)

unfoldable pub respond_to_approval : String → Action → Server → Ack × Server
respond_to_approval id a s = respond_on (lookup id s.approvals) a s

-- What the waiting upgrade takes out of its channel.
unfoldable pub take_reply : ℕ → Server → Server
take_reply c s = record s { replies = receive c s.replies }

unfoldable pub has_subscribers : Server → Bool
has_subscribers s = not (is_empty s.subscribers)

-- One call, under the lock of the map that it uses.
pub data Step : Server → Server → Type 0 where
  subscribes : (id : String) (s : Server) → Step s (subscribe id s)
  disconnects : (c : ℕ) (s : Server) → Step s (disconnect c s)
  delivers : (c : ℕ) (s : Server) → Step s (deliver c s)
  notifies : (e : Event) (s : Server) → Step s (notify e s)
  waits : (id : String) (s : Server) → Step s (wait_for_approval id s)
  cancels : (id : String) (s : Server) → Step s (cancel_approval id s)
  responds : (id : String) (a : Action) (s : Server) → Step s (respond_to_approval id a s).1
  takes : (c : ℕ) (s : Server) → Step s (take_reply c s)

-- What calls can lead to, in any order.
pub data Reach : Server → Type 0 where
  starts : Reach new_server
  steps : (s t : Server) → Reach s → Step s t → Reach t
