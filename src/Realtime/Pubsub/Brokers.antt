-- ===== src/Realtime/Pubsub/Brokers.antt =====
-- The two brokers of services/realtime-service/internal/pubsub side by side.
use Prim.Native.String.{◌++◌ as append}
use mathlib.Core.List.{append_assoc, append-nil}
use go_microservices_chat.Prelude.{
  ℕ, String, ◌≡◌, refl, sym, ap, ◌∙◌, false, Option, none, some, List, [], ◌∷◌, ◌++◌, map, arith,
}
use go_microservices_chat.Go.Exec.{ok, Exec, ◌>>=◌, pure}
use go_microservices_chat.Go.Strings.{trim_prefix-append}
use go_microservices_chat.Realtime.Pubsub.{
  RoomEvent, InMem, Publish, sends, gives_up, RedisMessage, channel_prefix, to_redis, of_redis,
  Redis, redis_publish, Signal, message, done, Subscription, subscribed, unsubscribed, subscribe,
  redis_subscribe,
}

-- A room event comes back from its Redis message as it was, whatever the room id.
pub of_redis-to_redis : (ev : RoomEvent) → of_redis (to_redis ev) ≡ ev
unfolding of_redis to_redis
of_redis-to_redis ev = rw (trim_prefix-append channel_prefix ev.room_id)

-- one call of `Publish` after the other
pub data PublishAll : List RoomEvent → InMem → InMem → Type 0 where
  none_left : {p : InMem} → PublishAll [] p p
  published :
      {ev : RoomEvent} {evs : List RoomEvent} {p p' p'' : InMem}
      → Publish ev p p'
      → PublishAll evs p' p''
      → PublishAll (ev ∷ evs) p p''

-- the events wait in the order in which they were published
in_order :
    {evs : List RoomEvent} {p p' : InMem}
    → PublishAll evs p p'
    → p.closed ≡ false
    → p'.ch ≡ p.ch ++ evs
in_order {p = p} none_left open' = sym (append-nil p.ch)
in_order {p = p} (published {ev = ev} {evs = evs} (sends room) more) open' =
    in_order more open' ∙ append_assoc p.ch (ev ∷ []) evs
in_order (published (gives_up closed) more) open' = absurd (ground arith)

-- the signals of messages, and then maybe the end of the context
abbrev pub signals : {A : Type 0} → List A → Option String → List (Signal A)
signals [] none = []
signals [] (some e) = done e ∷ []
signals (a ∷ rest) end = message a ∷ signals rest end

-- the callback with one event after the other
abbrev pub called : {T : Type 0} → (RoomEvent → T → T) → List RoomEvent → T → T
called f [] t = t
called f (ev ∷ evs) t = called f evs (f ev t)

-- how a subscriber goes on after all messages
abbrev pub after : Option String → Subscription
after none = subscribed
after (some e) = unsubscribed (some e)

subscribe-called :
    {T : Type 0} (f : RoomEvent → T → T) (evs : List RoomEvent) (end : Option String) (t : T)
    → subscribe f (signals evs end) t ≡ (after end, called f evs t)
unfolding subscribe
subscribe-called f [] none t = refl
subscribe-called f [] (some e) t = refl
subscribe-called f (ev ∷ evs) end t = subscribe-called f evs end (f ev t)

redis_subscribe-called :
    {T : Type 0} (f : RoomEvent → T → T) (evs : List RoomEvent) (end : Option String) (t : T)
    → redis_subscribe f (signals (map to_redis evs) end) t ≡ (after end, called f evs t)
unfolding redis_subscribe
redis_subscribe-called f [] none t = refl
redis_subscribe-called f [] (some e) t = refl
redis_subscribe-called f (ev ∷ evs) end t =
    ap (λ x. redis_subscribe f (signals (map to_redis evs) end) (f x t)) (of_redis-to_redis ev)
    ∙ redis_subscribe-called f evs end (f ev t)

module _ {S : Type 0} (redis : Redis S) (delivered : S → List RedisMessage) where
  -- PUBLISH of a message on a channel whose name begins with `room:` succeeds, and the subscriber of
  -- `room:*` has it behind those that it had
  abbrev pub Relays : Type 0
  Relays =
      (room_id payload : String) (s : S)
      → (n : ℕ) × (s' : S) × (redis.server_publish (append channel_prefix room_id) payload s
          ≡ (ok n, s'))
        × (delivered s'
            ≡ delivered s
              ++ record { channel = append channel_prefix room_id; payload = payload } ∷ [])

  unfoldable pub publish_all : List RoomEvent → Exec S String (Unit {0})
  publish_all [] = pure tt
  publish_all (ev ∷ evs) = redis_publish redis ev >>= λ _. publish_all evs

  relayed :
      Relays
      → (evs : List RoomEvent) (s : S)
      → (s' : S) × (publish_all evs s ≡ (ok tt, s'))
        × (delivered s' ≡ delivered s ++ map to_redis evs)
  unfolding publish_all redis_publish to_redis ◌>>=◌ pure
  relayed relays [] s = (s, refl, sym (append-nil (delivered s)))
  relayed relays (ev ∷ evs) s =
      let (n, s', at, new) = relays ev.room_id ev.payload s in
      let (s'', at', all) = relayed relays evs s' in
      (
        s'',
        rw (at, publish_all) at',
        all
            ∙ ap (λ l. l ++ map to_redis evs) new
            ∙ append_assoc (delivered s) (to_redis ev ∷ []) (map to_redis evs),
      )

  -- Events that are published one after the other, to a new in-memory broker and to a Redis that has
  -- delivered nothing yet: either subscriber calls the callback with these events, in the order in
  -- which they were published, and then waits, or returns the error of the context when it ends. Redis
  -- is assumed to deliver a message on a channel `room:...` to the subscriber of `room:*`, in order.
  pub same_events :
      {T : Type 0} (f : RoomEvent → T → T) (evs : List RoomEvent) (s : S) (p p' : InMem)
      → Relays
      → PublishAll evs p p'
      → p.closed ≡ false
      → p.ch ≡ []
      → delivered s ≡ []
      → (s' : S) × (publish_all evs s ≡ (ok tt, s'))
        × ((end : Option String) (t : T)
            → (redis_subscribe f (signals (delivered s') end) t ≡ (after end, called f evs t))
              × (subscribe f (signals p'.ch end) t ≡ (after end, called f evs t)))
  same_events f evs s p p' relays all open' empty nothing =
      let (s', at, have) = relayed relays evs s in
      let have' : delivered s' ≡ map to_redis evs =
        have ∙ ap (λ l. l ++ map to_redis evs) nothing in
      let ch : p'.ch ≡ evs = in_order all open' ∙ ap (λ l. l ++ evs) empty in
      (
        s',
        at,
        λ end t. (
          ap (λ l. redis_subscribe f (signals l end) t) have' ∙ redis_subscribe-called f evs end t,
          ap (λ l. subscribe f (signals l end) t) ch ∙ subscribe-called f evs end t,
        ),
      )
