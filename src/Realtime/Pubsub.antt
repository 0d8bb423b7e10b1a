-- ===== src/Realtime/Pubsub.antt =====
-- services/realtime-service/internal/pubsub: pubsub.go, inmem.go and redis.go. A payload is the text whose
-- UTF-8 its bytes are.
pub mod Brokers
mod Tests
use Prim.Native.String.{◌++◌ as append}
use go_microservices_chat.Prelude.{
  ℕ, ◌<◌, String, ◌≡◌, Bool, true, false, Option, none, some, List, [], ◌∷◌, ◌++◌, length,
}
use go_microservices_chat.Go.Exec.{Exec, ◌>>=◌, pure}
use go_microservices_chat.Go.Strings.{trim_prefix}

pub record RoomEvent : Type 0 where
  pub room_id : String
  pub payload : String

-- the interface `Publisher`, over the state of a broker
abbrev pub Publisher : Type 0 → Type 0
Publisher S = RoomEvent → Exec S String (Unit {0})

-- the buffered channel and whether `closeCh` is closed
pub record InMem : Type 0 where
  pub ch : List RoomEvent
  pub closed : Bool

abbrev pub new_in_mem : InMem
new_in_mem = record { ch = []; closed = false }

abbrev pub capacity : ℕ
capacity = 64

-- `Publish` that came past its test of `closed`: the two cases of its `select`. With a full channel that
-- is not closed it waits.
pub data Publish (ev : RoomEvent) (p : InMem) : InMem → Type 0 where
  sends : length p.ch < capacity → Publish ev p (record p { ch = p.ch ++ ev ∷ [] })
  gives_up : p.closed ≡ true → Publish ev p p

-- what `Subscribe` hands to its callback: `none` while it waits or when it has returned
unfoldable pub receive : InMem → Option (RoomEvent × InMem)
receive p = elim p.ch [ [] ↦ none | ev ∷ rest ↦ some (ev, record p { ch = rest }) ]

-- a second call changes nothing
unfoldable pub close : InMem → InMem
close p = record p { closed = true }

abbrev pub channel_prefix : String
channel_prefix = "room:"

-- a message of Redis: the channel and the payload
pub record RedisMessage : Type 0 where
  pub channel : String
  pub payload : String

-- the calls of go-redis, where `S` is what the server keeps: PING, PUBLISH and the close of the client
pub record Redis (S : Type 0) : Type 0 where
  pub server_ping : Exec S String (Unit {0})
  pub server_publish : String → String → Exec S String ℕ
  pub server_close : Exec S String (Unit {0})

-- what `Publish` passes to PUBLISH
unfoldable pub to_redis : RoomEvent → RedisMessage
to_redis ev = record { channel = append channel_prefix ev.room_id; payload = ev.payload }

-- what `Subscribe` makes of a message of PSUBSCRIBE `room:*`
unfoldable pub of_redis : RedisMessage → RoomEvent
of_redis m = record { room_id = trim_prefix m.channel channel_prefix; payload = m.payload }

module _ {S : Type 0} (redis : Redis S) where
  -- the answer of PUBLISH, the number of receivers, is not looked at
  unfoldable pub redis_publish : Publisher S
  unfolding to_redis
  redis_publish ev =
      redis.server_publish (to_redis ev).channel (to_redis ev).payload >>= λ _. pure tt

  unfoldable pub ping : Exec S String (Unit {0})
  ping = redis.server_ping

  unfoldable pub close_redis : Exec S String (Unit {0})
  close_redis = redis.server_close

-- what a subscriber's `select` receives: a message, the end of its context with its error, or that its
-- channel was closed
pub data Signal (A : Type 0) : Type 0 where
  message : A → Signal A
  done : String → Signal A
  closing : Signal A

-- how a subscriber goes on: it waits in its `select`, or it has returned, maybe with an error
pub data Subscription : Type 0 where
  subscribed : Subscription
  unsubscribed : Option String → Subscription

-- the interface `Subscriber`: the callback, which may change a state `T`, and what is received
abbrev pub Subscriber : Type 0 → Type 0 → Type 0
Subscriber A T = (RoomEvent → T → T) → List (Signal A) → T → Subscription × T

-- `Subscribe` of `InMem`, with the signals in the order in which they are received
unfoldable pub subscribe : {T : Type 0} → Subscriber RoomEvent T
subscribe on_message [] t = (subscribed, t)
subscribe on_message (message ev ∷ signals) t = subscribe on_message signals (on_message ev t)
subscribe on_message (done e ∷ signals) t = (unsubscribed (some e), t)
subscribe on_message (closing ∷ signals) t = (unsubscribed none, t)

-- `Subscribe` of `Redis`
unfoldable pub redis_subscribe : {T : Type 0} → Subscriber RedisMessage T
unfolding of_redis
redis_subscribe on_message [] t = (subscribed, t)
redis_subscribe on_message (message m ∷ signals) t =
    redis_subscribe on_message signals (on_message (of_redis m) t)
redis_subscribe on_message (done e ∷ signals) t = (unsubscribed (some e), t)
redis_subscribe on_message (closing ∷ signals) t =
    (unsubscribed (some "pubsub.redis: subscription channel closed"), t)
