-- ===== src/Realtime/System/Rooms.antt =====
-- What is shown to a client belongs to its room.
use mathlib.Core.Path.{subst}
use go_microservices_chat.Prelude.{ℕ, ◌≢◌, [], ◌∷◌, All, All-append}
use go_microservices_chat.Realtime.ChatClient
use go_microservices_chat.Realtime.Handler.{persists, publishes, on_frame}
use go_microservices_chat.Realtime.Hub
use go_microservices_chat.Realtime.Hub.{
  Hub, Client, Channel, LocalEvent, Received, registers, unregisters, broadcasts, step, set, or_nil,
}
use go_microservices_chat.Realtime.Hub.Buffers.{set-Buffers}
use go_microservices_chat.Realtime.Hub.Loop.{Case, panics, turn, stop, new_hub}
use go_microservices_chat.Realtime.Hub.Loop.Ordered.{
  IsOrdered, new_hub-IsOrdered, joins-IsOrdered, leaves-IsOrdered, arrives-IsOrdered,
  stop-IsOrdered, exit-IsOrdered, turn-IsOrdered,
}
use go_microservices_chat.Realtime.Hub.Loop.Turns.{
  register_inv, unregister_inv, local_broadcast_inv,
}
use go_microservices_chat.Go.Int.{pos}
use go_microservices_chat.Realtime.Protocol.{Json}
use go_microservices_chat.Realtime.System.Payloads.{
  From, TaskFrom, EventFrom, QueuedFrom, All-remove, react-From, Publish-From, receive-From,
  shown_next, turn-From,
}
use go_microservices_chat.Realtime.Hub.Loop.Reading.{with_buffer-IsOrdered}
use go_microservices_chat.Realtime.Hub.Loop.Valid.{turn-ne-panics}
use go_microservices_chat.Realtime.System.{
  World, idle, to_local, Step, Reach, reads, stores, fans_out, forwards, connects, disconnects,
  runs, exits, stops, writes, closes, fails, ends_writing, here, next,
}

module _ (json : Json) (clients : ℕ → Client) where
  -- everything on its way, and everything that was shown, is a message of the room that it goes to
  pub record InRooms {S : Type 0} (w : World S) : Type 0 where
    pub ordered : IsOrdered clients w.connected w.loop
    pub tasks : All (TaskFrom json clients) w.tasks
    pub pubsub : All (EventFrom json clients) w.pubsub.ch
    pub queue : All (QueuedFrom json clients) w.loop.broadcast
    pub buffers :
        (k : ℕ) → All (From json clients (clients k).room_id) (w.loop.hub.channels k).buffer
    pub shown : (k : ℕ) → All (From json clients (clients k).room_id) (w.shown k)

  init : {S : Type 0} (chat : S) → InRooms (idle chat)
  unfolding Hub.new_channel new_hub
  init chat = record {
    ordered = new_hub-IsOrdered clients (λ k. pos 32);
    tasks = tt;
    pubsub = tt;
    queue = tt;
    buffers = λ k. tt;
    shown = λ k. tt;
  }

  module _ {S : Type 0} (users : ChatClient.Client S) where
    Step-InRooms : {w w' : World S} → Step json users clients w w' → InRooms w → InRooms w'
    unfolding on_frame stop
    Step-InRooms {w} (reads k now frame alive) v = record {
      tasks =
          All-append (TaskFrom json clients) w.tasks
            (on_frame json now (clients k).user_id (clients k).room_id frame).tasks v.tasks
            (react-From json clients k now (json.unmarshal frame));
      ordered = v.ordered;
      pubsub = v.pubsub;
      queue = v.queue;
      buffers = v.buffers;
      shown = v.shown;
    }
    Step-InRooms {w} (stores front back user_id room_id content e) v = record {
      tasks =
          (All-remove json clients (TaskFrom json clients) front (persists user_id room_id content)
            back (subst (All (TaskFrom json clients)) e v.tasks)).1;
      ordered = v.ordered;
      pubsub = v.pubsub;
      queue = v.queue;
      buffers = v.buffers;
      shown = v.shown;
    }
    Step-InRooms {w} (fans_out front back ev p e pub') v =
        let split' =
          All-remove json clients (TaskFrom json clients) front (publishes ev) back
            (subst (All (TaskFrom json clients)) e v.tasks) in
        record {
          tasks = split'.1;
          pubsub = Publish-From json clients split'.0 pub' v.pubsub;
          ordered = v.ordered;
          queue = v.queue;
          buffers = v.buffers;
          shown = v.shown;
        }
    Step-InRooms {w} (forwards ev p l e sent) v =
        let (p1, p2) = receive-From json clients w.pubsub.ch w.pubsub.closed ev p e v.pubsub in
        let (at, fit) = local_broadcast_inv w.loop l (to_local ev) sent in
        record {
          pubsub = p2;
          ordered = arrives-IsOrdered clients w.connected (to_local ev) w.loop l sent v.ordered;
          queue =
              subst (λ x. All (QueuedFrom json clients) x.broadcast) at
                (All-append (QueuedFrom json clients) w.loop.broadcast (to_local ev ∷ []) v.queue
                  (p1, tt));
          buffers =
              subst
                (λ x.
                  (k : ℕ) → All (From json clients (clients k).room_id) (x.hub.channels k).buffer)
                at v.buffers;
          tasks = v.tasks;
          shown = v.shown;
        }
    Step-InRooms {w} (connects l e) v =
        let (at, fit) = register_inv w.loop l w.connected e in
        record {
          ordered = joins-IsOrdered clients w.connected w.loop l e v.ordered;
          queue = subst (λ x. All (QueuedFrom json clients) x.broadcast) at v.queue;
          buffers =
              subst
                (λ x.
                  (k : ℕ) → All (From json clients (clients k).room_id) (x.hub.channels k).buffer)
                at v.buffers;
          tasks = v.tasks;
          pubsub = v.pubsub;
          shown = v.shown;
        }
    Step-InRooms {w} (disconnects k l leaves e) v =
        let (at, fit) = unregister_inv w.loop l k e in
        record {
          ordered = leaves-IsOrdered clients w.connected k w.loop l e v.ordered;
          queue = subst (λ x. All (QueuedFrom json clients) x.broadcast) at v.queue;
          buffers =
              subst
                (λ x.
                  (k : ℕ) → All (From json clients (clients k).room_id) (x.hub.channels k).buffer)
                at v.buffers;
          tasks = v.tasks;
          pubsub = v.pubsub;
          shown = v.shown;
        }
    Step-InRooms {w} (runs c l on e) v =
        let (queue, buffers) =
          turn-From json clients c w.loop l v.ordered.sound.valid e v.queue v.buffers in
        record {
          ordered = turn-IsOrdered clients w.connected w.loop l c e v.ordered;
          queue = queue;
          buffers = buffers;
          tasks = v.tasks;
          pubsub = v.pubsub;
          shown = v.shown;
        }
    Step-InRooms {w} (exits c on e) v = record {
      ordered = exit-IsOrdered clients w.connected w.loop v.ordered;
      queue = v.queue;
      buffers = v.buffers;
      tasks = v.tasks;
      pubsub = v.pubsub;
      shown = v.shown;
    }
    Step-InRooms {w} stops v = record {
      ordered = stop-IsOrdered clients w.connected w.loop v.ordered;
      queue = v.queue;
      buffers = v.buffers;
      tasks = v.tasks;
      pubsub = v.pubsub;
      shown = v.shown;
    }
    Step-InRooms {w} (writes k b rest alive on e) v =
        let (this, others) = subst (All (From json clients (clients k).room_id)) e (v.buffers k) in
        record {
          ordered = with_buffer-IsOrdered clients w.connected w.loop k b rest e v.ordered;
          buffers =
              set-Buffers (λ j. From json clients (clients j).room_id) w.loop.hub.channels k
                (record (w.loop.hub.channels k) { buffer = rest }) others v.buffers;
          shown = λ j. shown_next json clients w.shown k b j v.shown this;
          tasks = v.tasks;
          pubsub = v.pubsub;
          queue = v.queue;
        }
    Step-InRooms {w} (fails k b rest on e) v = record {
      ordered = with_buffer-IsOrdered clients w.connected w.loop k b rest e v.ordered;
      buffers =
          set-Buffers (λ j. From json clients (clients j).room_id) w.loop.hub.channels k
            (record (w.loop.hub.channels k) { buffer = rest })
            (subst (All (From json clients (clients k).room_id)) e (v.buffers k)).1 v.buffers;
      tasks = v.tasks;
      pubsub = v.pubsub;
      queue = v.queue;
      shown = v.shown;
    }
    Step-InRooms (closes k alive) v = record {
      ordered = v.ordered;
      queue = v.queue;
      buffers = v.buffers;
      tasks = v.tasks;
      pubsub = v.pubsub;
      shown = v.shown;
    }
    Step-InRooms (ends_writing k on) v = record {
      ordered = v.ordered;
      queue = v.queue;
      buffers = v.buffers;
      tasks = v.tasks;
      pubsub = v.pubsub;
      shown = v.shown;
    }

    from_start : (chat : S) {w : World S} → Reach json users clients (idle chat) w → InRooms w
    from_start chat here = init chat
    from_start chat (next r s) = Step-InRooms s (from_start chat r)

    -- In every state that is reached from the start, every event that waits in the broker or in front of
    -- the hub, every payload in the channel of a client and every payload that its write loop wrote to
    -- its web socket is the JSON of a message to the room in question, the client's room for the last
    -- two, and the sender of that message is the user of a client of the same room. The hub stays sound,
    -- and no case that `Run` may take next panics.
    pub Reach-InRooms :
        (chat : S) {w : World S}
        → Reach json users clients (idle chat) w
        → InRooms w × ((c : Case) → turn clients c w.loop ≢ panics)
    Reach-InRooms chat {w} r =
        let v = from_start chat r in (v, turn-ne-panics clients w.loop v.ordered.sound)
