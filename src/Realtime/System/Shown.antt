-- ===== src/Realtime/System/Shown.antt =====
-- The way of a message from the web socket of one client to that of another.
use mathlib.Core.Path.{subst}
use go_microservices_chat.Prelude.{
  ℕ, ◌<◌, String, ◌≡◌, refl, ap, ◌∙◌, false, true, some, [], ◌∷◌, ◌++◌, arith, length, ltb, lt→ltb,
}
use go_microservices_chat.Go.Dict
use go_microservices_chat.Go.Time.{Time}
use go_microservices_chat.Realtime.ChatClient
use go_microservices_chat.Realtime.Hub.{Client, Channel, LocalEvent, has, or_nil, offer}
use go_microservices_chat.Realtime.Hub.Delivery.{broadcast_lem}
use go_microservices_chat.Realtime.Hub.Loop.{
  Loop, from_broadcast, handles, handled, turn, local_broadcast,
}
use go_microservices_chat.Realtime.Hub.Loop.Valid.{IsSound}
use go_microservices_chat.Realtime.Protocol.{Json}
use go_microservices_chat.Realtime.Pubsub.{InMem, Publish, receive, sends}
use go_microservices_chat.Realtime.System.{
  World, Reach, here, next, reads, fans_out, forwards, runs, writes, to_local, idle, serving,
}
use go_microservices_chat.Realtime.System.Overtaking.{Says, event, stored, last_task}
use go_microservices_chat.Realtime.System.Rooms.{Reach-InRooms}

offer_first :
    (payload : String) (ch : Channel)
    → ch.buffer ≡ []
    → 0 < ch.capacity
    → (offer payload ch).buffer ≡ payload ∷ []
unfolding offer
offer_first payload ch empty room =
    let fits : ltb (length ch.buffer) ch.capacity ≡ true = rw empty (lt→ltb 0 ch.capacity room) in
    rw fits (rw empty refl)

module _ (clients : ℕ → Client) where
  -- `Run` hands the only event that waits to a client of its room
  handed_over :
      (l : Loop) (j : ℕ) (ev : LocalEvent)
      → IsSound clients l
      → has j (or_nil (Dict.get l.hub.rooms ev.room_id)) ≡ true
      → (l.hub.channels j).buffer ≡ []
      → 0 < (l.hub.channels j).capacity
      → (l' : Loop) × (turn clients from_broadcast (record l { broadcast = ev ∷ [] }) ≡ handles l')
        × ((l'.hub.channels j).buffer ≡ ev.payload ∷ [])
  unfolding turn
  handed_over l j ev i inside empty room =
      let (h, at, rooms, each) = broadcast_lem clients l.hub ev i.valid (i.tidy.apart ev.room_id) in
      (
        record l { broadcast = []; hub = h },
        rw (at, handled) refl,
        ap (λ ch. ch.buffer) (rw inside at (each j))
            ∙ offer_first ev.payload (l.hub.channels j) empty room,
      )

  module _ {S : Type 0} (json : Json) (users : ChatClient.Client S) where
    -- In a state of the realtime service that is reached from the start, in which `Run` has not returned,
    -- nothing is in the broker and no event in front of the hub: whatever else waits, a message that an
    -- open connection `k` sends can go all the way to the web socket of each client `j` that the hub has
    -- in the room of `k`, its sender included, where it is shown behind what was shown before. The
    -- connection of `j` is open too, its write loop runs, and its channel is empty and has room for at
    -- least one payload.
    pub message_shown :
        (chat : S) {w : World S} (k j : ℕ) (now : Time) (frame payload : String)
        → Reach json users clients (idle chat) w
        → w.phase k ≡ serving
        → Says json clients k now frame payload
        → w.pubsub.ch ≡ []
        → w.loop.broadcast ≡ []
        → w.loop.exited ≡ false
        → has j (or_nil (Dict.get w.loop.hub.rooms (clients k).room_id)) ≡ true
        → w.phase j ≡ serving
        → w.writing j ≡ true
        → (w.loop.hub.channels j).buffer ≡ []
        → 0 < (w.loop.hub.channels j).capacity
        → (w' : World S) × Reach json users clients w w' × (w'.shown j ≡ w.shown j ++ payload ∷ [])
    unfolding receive local_broadcast
    message_shown chat {w} k j now frame payload r alive says broker queue on inside open' writes'
          empty room =
        let ev = event json clients k payload in
        let e = last_task json clients k now frame payload says w.tasks in
        let p : InMem = record w.pubsub { ch = ev ∷ [] } in
        let p' : InMem = record w.pubsub { ch = [] } in
        let l = record w.loop { broadcast = to_local ev ∷ [] } in
        let put : Publish ev w.pubsub p =
          subst (λ c. Publish ev w.pubsub (record w.pubsub { ch = c ++ ev ∷ [] })) broker
            (sends (omega (arith, ap length broker))) in
        let sent : local_broadcast (to_local ev) w.loop ≡ some l =
          rw (queue, local_broadcast) refl in
        let sound = (Reach-InRooms json clients users chat r).0.ordered.sound in
        let (l', at, has') = handed_over w.loop j (to_local ev) sound inside empty room in
        (
          _,
          next
              (next
                (next
                  (next (next here (reads k now frame alive)) (
                    fans_out (w.tasks ++ stored json clients k now frame payload says ∷ []) [] ev p
                      e put))
                  (forwards ev p' l refl sent))
                (runs from_broadcast l' on at))
              (writes j payload [] open' writes' has'),
          ground arith,
        )
