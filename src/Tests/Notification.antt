-- ===== src/Tests/Notification.antt =====
-- One agent that connects and is notified.
use nodemanager.Common.{String, [], length, lookup, none, some, true, ℕ, ◌++◌, ◌<◌, ◌↔◌, ◌∷◌}
use nodemanager.Common.{◌≡◌, ◌≤◌}
use nodemanager.Node.{upgrade_started}
use nodemanager.Notification.{
  Reach, Server, has_subscribers, new_server, notifies, notify, starts, steps, subscribe,
  subscribes,
}
use nodemanager.Notification.Delivery.{notify_reaches}
use nodemanager.Notification.Streams.{AllOrderly, subscribers_are_streams}

abbrev connected : Server
connected = subscribe "s1" new_server

abbrev told : Server
told = notify (upgrade_started "n1") connected

abbrev reached : Reach told
reached =
    steps connected told (steps new_server connected starts (subscribes "s1" new_server))
      (notifies (upgrade_started "n1") connected)

orderly : AllOrderly reached
unfolding new_server
orderly = ((tt, λ c same. cc), tt)

subscribers_are_streams_example :
    ((id : String) (c : ℕ) → (lookup id told.subscribers ≡ some c) ↔ (told.streams c ≡ some id))
    × ((has_subscribers told ≡ true) ↔ ((c : ℕ) × (id : String) × (told.streams c ≡ some id)))
subscribers_are_streams_example = subscribers_are_streams told reached orderly

notify_reaches_example :
    ((id : String)
      → told.streams 0 ≡ some id
      → (length (told.events 0) < 64
          → (notify (upgrade_started "n1") told).events 0
            ≡ told.events 0 ++ upgrade_started "n1" ∷ [])
        × (64 ≤ length (told.events 0)
            → (notify (upgrade_started "n1") told).events 0 ≡ told.events 0))
    × (told.streams 0 ≡ none → (notify (upgrade_started "n1") told).events 0 ≡ told.events 0)
notify_reaches_example = notify_reaches told reached orderly (upgrade_started "n1") 0
