-- ===== src/Realtime/System.antt =====
-- The realtime service as it is put together in services/realtime-service/cmd/server/main.go: handlers
-- start tasks, a task asks the chat service to store a message or publishes it, the subscriber hands
-- what was published to the hub, and the hub to the clients of the room. Whatever is ready may go next.
pub mod Payloads
pub mod Rooms
pub mod Overtaking
pub mod Shown
pub mod Stored
mod Tests
use go_microservices_chat.Prelude.{
  ℕ, suc, ◌<◌, String, Bool, ◌≡◌, ◌≢◌, refl, none, some, List, [], ◌∷◌, ◌++◌, length, eqb, true,
  false, if◌then◌else◌,
}
use go_microservices_chat.Go.Dict
use go_microservices_chat.Go.Exec.{ok}
use go_microservices_chat.Go.Int.{pos}
use go_microservices_chat.Go.Time.{Time}
use go_microservices_chat.Auth.Context.{Context}
use go_microservices_chat.Realtime.ChatClient
use go_microservices_chat.Realtime.Handler.{Task, persists, publishes, Reaction, on_frame}
use go_microservices_chat.Realtime.Hub.{
  Hub, Client, Channel, LocalEvent, Received, registers, unregisters, broadcasts, set, new_channel,
}
use go_microservices_chat.Realtime.Hub.Loop.{
  Loop, Case, handles, returns, new_hub, register, unregister, local_broadcast, stop, turn,
  with_buffer,
}
use go_microservices_chat.Realtime.Protocol.{Json}
use go_microservices_chat.Realtime.Pubsub.{RoomEvent, InMem, Publish, receive, new_in_mem}

-- a connection: not accepted yet, with its read loop running, with its web socket closed and its context
-- ended but still in `Unregister`, and returned
pub data ConnectionPhase : Type 0 where
  absent serving leaving gone : ConnectionPhase

-- `connected` is the number of clients that have connected so far, `loop` the hub with its channels, and
-- `chat` the state of the chat service. Of each connection: its phase, whether its write loop runs, what
-- the write loop wrote to its web socket, and the error frames that the read loop gave to be written
pub record World (S : Type 0) : Type 0 where
  pub tasks : List Task
  pub pubsub : InMem
  pub connected : ℕ
  pub loop : Loop
  pub phase : ℕ → ConnectionPhase
  pub writing : ℕ → Bool
  pub shown : ℕ → List String
  pub errors : ℕ → List String
  pub chat : S

-- `h.LocalBroadcast(hub.LocalEvent{...})`
abbrev pub to_local : RoomEvent → LocalEvent
to_local ev = record { room_id = ev.room_id; payload = ev.payload }

-- the fresh context of `persist`: `context.Background()`
abbrev pub background : Context
background = record { incoming = none; outgoing = [] }

abbrev pub change : {A : Type 0} → (ℕ → A) → ℕ → A → ℕ → A
change f k a j = if eqb j k then a else f j

abbrev pub behind : (ℕ → List String) → ℕ → List String → ℕ → List String
behind f k frames j = if eqb j k then f j ++ frames else f j

-- the frame that `sendError` writes
abbrev pub error_frames : Reaction → List String
error_frames r = elim r.written [ none ↦ [] | some b ↦ b ∷ [] ]

-- a hub whose channels are those that `ServeHTTP` asks `NewClient` for
abbrev pub idle : {S : Type 0} → S → World S
idle chat = record {
  tasks = [];
  pubsub = new_in_mem;
  connected = 0;
  loop = new_hub (λ k. new_channel (pos 32));
  phase = λ k. absent;
  writing = λ k. false;
  shown = λ k. [];
  errors = λ k. [];
  chat = chat;
}

module _ {S : Type 0} (json : Json) (users : ChatClient.Client S) (clients : ℕ → Client) where
  pub data Step (w : World S) : World S → Type 0 where
    -- the read loop of a connection reads a frame
    reads :
        (k : ℕ) (now : Time) (frame : String)
        → w.phase k ≡ serving
        → Step w (record w {
          tasks =
              w.tasks ++ (on_frame json now (clients k).user_id (clients k).room_id frame).tasks;
          errors =
              behind w.errors k
                (error_frames (on_frame json now (clients k).user_id (clients k).room_id frame));
        })
    -- its error, if any, is only logged
    stores :
        (front back : List Task) (user_id room_id content : String)
        → w.tasks ≡ front ++ persists user_id room_id content ∷ back
        → Step w (record w {
          tasks = front ++ back;
          chat = (users background user_id room_id content w.chat).1;
        })
    fans_out :
        (front back : List Task) (ev : RoomEvent) (p : InMem)
        → w.tasks ≡ front ++ publishes ev ∷ back
        → Publish ev w.pubsub p
        → Step w (record w { tasks = front ++ back; pubsub = p })
    -- the subscriber waits while the channel in front of the hub is full
    forwards :
        (ev : RoomEvent) (p : InMem) (l : Loop)
        → receive w.pubsub ≡ some (ev, p)
        → local_broadcast (to_local ev) w.loop ≡ some l
        → Step w (record w { pubsub = p; loop = l })
    -- a connection begins, and waits while the channel in front of the hub is full
    connects :
        (l : Loop)
        → register w.connected w.loop ≡ some l
        → Step w (record w {
          connected = suc w.connected;
          loop = l;
          phase = change w.phase w.connected serving;
          writing = change w.writing w.connected true;
        })
    -- the read loop returns, the web socket is closed and the context is cancelled
    closes : (k : ℕ) → w.phase k ≡ serving → Step w (record w { phase = change w.phase k leaving })
    -- its `Unregister`, which waits while the channel in front of the hub is full
    disconnects :
        (k : ℕ) (l : Loop)
        → w.phase k ≡ leaving
        → unregister k w.loop ≡ some l
        → Step w (record w { loop = l; phase = change w.phase k gone })
    -- `Run` handles a value
    runs :
        (c : Case) (l : Loop)
        → w.loop.exited ≡ false
        → turn clients c w.loop ≡ handles l
        → Step w (record w { loop = l })
    -- `Run` returns
    exits :
        (c : Case)
        → w.loop.exited ≡ false
        → turn clients c w.loop ≡ returns
        → Step w (record w { loop = record w.loop { exited = true } })
    stops : Step w (record w { loop = stop w.loop })
    -- `writeLoop` takes a payload and writes it to the web socket, which is open
    writes :
        (k : ℕ) (b : String) (rest : List String)
        → w.phase k ≡ serving
        → w.writing k ≡ true
        → (w.loop.hub.channels k).buffer ≡ b ∷ rest
        → Step w (record w { loop = with_buffer w.loop k rest; shown = behind w.shown k (b ∷ []) })
    -- `writeLoop` takes a payload that cannot be written, and returns
    fails :
        (k : ℕ) (b : String) (rest : List String)
        → w.writing k ≡ true
        → (w.loop.hub.channels k).buffer ≡ b ∷ rest
        → Step w (record w { loop = with_buffer w.loop k rest; writing = change w.writing k false })
    -- `writeLoop` returns: its context has ended, be it by the request, or its channel is closed and
    -- empty. The step asks for neither, and so allows more.
    ends_writing :
        (k : ℕ) → w.writing k ≡ true → Step w (record w { writing = change w.writing k false })

  pub data Reach (start : World S) : World S → Type 0 where
    here : Reach start start
    next : {w w' : World S} → Reach start w → Step w w' → Reach start w'
