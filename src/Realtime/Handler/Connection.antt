-- ===== src/Realtime/Handler/Connection.antt =====
-- `ServeHTTP` of services/realtime-service/internal/ws/handler.go from the request to the end of the
-- connection. What accepting the web socket gives and the frames that are read are arguments.
pub mod Calls
use go_microservices_chat.Prelude.{
  ℕ, String, ◌≡◌, ◌≢◌, ◌⊎◌, inl, inr, refl, sym, ap, ◌∙◌, Option, none, some, List, [], ◌∷◌, ◌++◌,
  map, arith, ◌==◌, Bool-cases, eq_iff, Option-cases, if◌then◌else◌,
}
use go_microservices_chat.Go.Time.{Time}
use go_microservices_chat.Realtime.Handler.{
  Task, Request, Served, rejected, unauthorized, connects, Reaction, read_user_id, admit, on_frame,
  read_loop,
}
use go_microservices_chat.Realtime.Hub.{Client}
use go_microservices_chat.Realtime.Protocol.{Json}

-- the status of a closing handshake
pub data Closing : Type 0 where
  normal_closure internal_error : Closing

-- what is done for a request, in order: `http.Error` with its status, an error that is logged, the calls
-- of the hub, the start of the write loop and of tasks, frames written back, `cancel`, and `conn.Close`
pub data Action : Type 0 where
  answers : ℕ → String → Action
  logs : String → Action
  joins : Client → Action
  leaves : Client → Action
  starts_writing : Client → Action
  starts : Task → Action
  writes : String → Action
  cancels : Action
  closes : Closing → Action

abbrev pub reply : Option String → List Action
reply none = []
reply (some b) = writes b ∷ []

abbrev pub actions_of : Reaction → List Action
actions_of r = map starts r.tasks ++ reply r.written

module _ (json : Json) where
  unfoldable pub reading : String → String → List (Time × String) → List Action
  unfolding on_frame
  reading user_id room_id [] = []
  reading user_id room_id ((now, frame) ∷ frames) =
      actions_of (on_frame json now user_id room_id frame) ++ reading user_id room_id frames

  -- a connection that was accepted, with its deferred calls, the last one first
  abbrev pub connection : Client → List (Time × String) → List Action
  connection client frames =
      joins client ∷ starts_writing client ∷ reading client.user_id client.room_id frames
      ++ closes normal_closure ∷ cancels ∷ leaves client ∷ closes internal_error ∷ []

  abbrev pub accepting : Client → Option String → List (Time × String) → List Action
  accepting client (some e) frames = logs e ∷ []
  accepting client none frames = connection client frames

  abbrev pub answering : Served → Option String → List (Time × String) → List Action
  answering (unauthorized text) failure frames = answers 401 text ∷ []
  answering (rejected text) failure frames = answers 400 text ∷ []
  answering (connects client) failure frames = accepting client failure frames

  -- `failure` is the error of `websocket.Accept`
  unfoldable pub serve_http : Request → Option String → List (Time × String) → List Action
  unfolding admit reading
  serve_http r failure frames = answering (admit r) failure frames

-- the calls of the hub among the actions
pub data HubCall : Type 0 where
  register unregister : Client → HubCall

abbrev pub hub_calls : List Action → List HubCall
hub_calls [] = []
hub_calls (joins c ∷ actions) = register c ∷ hub_calls actions
hub_calls (leaves c ∷ actions) = unregister c ∷ hub_calls actions
hub_calls (_ ∷ actions) = hub_calls actions

abbrev pub started : List Action → List Task
started [] = []
started (starts t ∷ actions) = t ∷ started actions
started (_ ∷ actions) = started actions

abbrev pub written : List Action → List String
written [] = []
written (writes b ∷ actions) = b ∷ written actions
written (_ ∷ actions) = written actions
