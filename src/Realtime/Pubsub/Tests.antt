-- ===== src/Realtime/Pubsub/Tests.antt =====
-- The two brokers, with a Redis that keeps what it has delivered.
use go_microservices_chat.Prelude.{String, ◌≡◌, refl, Option, List, [], ◌∷◌, ◌++◌, arith}
use go_microservices_chat.Go.Exec.{ok}
use go_microservices_chat.Realtime.Pubsub.{
  RoomEvent, InMem, new_in_mem, sends, RedisMessage, Redis, redis_subscribe, subscribe,
}
use go_microservices_chat.Realtime.Pubsub.Brokers.{
  PublishAll, none_left, published, Relays, publish_all, signals, after, called, same_events,
}

-- one subscriber, which has every message
abbrev echo : Redis (List RedisMessage)
echo = record {
  server_ping = λ s. (ok tt, s);
  server_publish =
      λ channel payload s. (ok 1, s ++ record { channel = channel; payload = payload } ∷ []);
  server_close = λ s. (ok tt, s);
}

echo-Relays : Relays echo (λ s. s)
echo-Relays room_id payload s = (1, _, refl, refl)

abbrev hello : RoomEvent
hello = record { room_id = "r1"; payload = "hello" }

abbrev again : RoomEvent
again = record { room_id = "room:2"; payload = "again" }

abbrev both : InMem
both = record new_in_mem { ch = hello ∷ again ∷ [] }

both_published : PublishAll (hello ∷ again ∷ []) new_in_mem both
both_published =
    published {p' = record new_in_mem { ch = hello ∷ [] }} (sends (omega arith))
      (published {p' = both} (sends (omega arith)) none_left)

same_events_example :
    (s' : List RedisMessage) × (publish_all echo (λ s. s) (hello ∷ again ∷ []) [] ≡ (ok tt, s'))
    × ((end : Option String) (t : List RoomEvent)
        → (redis_subscribe (λ ev t. t ++ ev ∷ []) (signals s' end) t
            ≡ (after end, called (λ ev t. t ++ ev ∷ []) (hello ∷ again ∷ []) t))
          × (subscribe (λ ev t. t ++ ev ∷ []) (signals both.ch end) t
              ≡ (after end, called (λ ev t. t ++ ev ∷ []) (hello ∷ again ∷ []) t)))
same_events_example =
    same_events echo (λ s. s) (λ ev t. t ++ ev ∷ []) (hello ∷ again ∷ []) [] new_in_mem both
      echo-Relays both_published refl refl refl
