-- ===== src/Realtime/Handler/Connection/Calls.antt =====
-- What a connection makes of the hub, of tasks and of the web socket.
use go_microservices_chat.Prelude.{String, ◌≡◌, Option, none, some, List, [], ◌∷◌}
use go_microservices_chat.Go.Time.{Time}
use go_microservices_chat.Realtime.Handler.{Task, read_loop}
use go_microservices_chat.Realtime.Hub.{Client}
use go_microservices_chat.Realtime.Protocol.{Json}
use go_microservices_chat.Realtime.Handler.Connection.{
  Action, HubCall, register, unregister, logs, hub_calls, started, written,
}

-- the three views of some actions
record Views (a : List Action) (calls : List HubCall) (tasks : List Task) (frames : List String)
    : Type 0 where
  calls_are : hub_calls a ≡ calls
  tasks_are : started a ≡ tasks
  frames_are : written a ≡ frames

module _ (json : Json) where
  -- what a request with a user id and a room id leads to: an error of `websocket.Accept` is only logged,
  -- and otherwise the client is registered and taken out again, around the tasks and the frames of the
  -- read loop
  abbrev pub Outcome : Client → Option String → List (Time × String) → List Action → Type 0
  Outcome c (some e) frames actions = actions ≡ logs e ∷ []
  Outcome c none frames actions =
      (hub_calls actions ≡ register c ∷ unregister c ∷ [])
      × (started actions ≡ (read_loop json c.user_id c.room_id frames).0)
      × (written actions ≡ (read_loop json c.user_id c.room_id frames).1)
