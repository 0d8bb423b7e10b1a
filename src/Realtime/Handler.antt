-- ===== src/Realtime/Handler.antt =====
-- services/realtime-service/internal/ws/handler.go. The web socket is a parameter: the frames that it
-- reads are given, and the frames that are written to it come back. A `go` statement starts a task,
-- which runs on its own later.
pub mod Connection
pub mod Writing
mod Tests
use Prim.Native.String.{◌++◌ as append}
use go_microservices_chat.Prelude.{
  String, Option, none, some, List, [], ◌∷◌, ◌++◌, ◌==◌, if◌then◌else◌,
}
use go_microservices_chat.Go.Exec.{Result, ok, err, panic}
use go_microservices_chat.Go.Time.{Time, zero_time}
use go_microservices_chat.Realtime.Hub.{Client}
use go_microservices_chat.Realtime.Protocol.{Inbound, Outbound, Json, type_message, type_error}
use go_microservices_chat.Realtime.Pubsub.{RoomEvent}

-- the two `go` statements of `HandleMessage`
pub data Task : Type 0 where
  persists : String → String → String → Task
  publishes : RoomEvent → Task

-- the part of an `http.Request` that the handler reads
pub record Request : Type 0 where
  pub header : String → String
  pub query : String → String

abbrev pub user_id_key : String
user_id_key = "x-user-id"

unfoldable pub read_user_id : Request → String
read_user_id r = if r.header user_id_key == "" then r.query user_id_key else r.header user_id_key

-- what `ServeHTTP` makes of a request: an HTTP error with its status, or the client to be connected
pub data Served : Type 0 where
  rejected : String → Served
  unauthorized : String → Served
  connects : Client → Served

unfoldable pub admit : Request → Served
unfolding read_user_id
admit r =
    if read_user_id r == ""
    then unauthorized "missing x-user-id"
    else if r.query "room_id" == ""
    then rejected "missing room_id"
    else connects (record { user_id = read_user_id r; room_id = r.query "room_id" })

abbrev pub outbound_message : Time → String → String → String → Outbound
outbound_message now user_id room_id content = record {
  type = type_message;
  id = "";
  room_id = room_id;
  sender_id = user_id;
  content = content;
  created_at = now;
  code = "";
  message = "";
}

abbrev pub outbound_error : String → String → Outbound
outbound_error code message = record {
  type = type_error;
  id = "";
  room_id = "";
  sender_id = "";
  content = "";
  created_at = zero_time;
  code = code;
  message = message;
}

-- `b, _ := json.Marshal(...)`
abbrev or_nil : Result String String → String
or_nil (ok b) = b
or_nil (err e) = ""
or_nil panic = ""

-- what one frame leads to: tasks, and a frame that is written back
pub record Reaction : Type 0 where
  pub tasks : List Task
  pub written : Option String

abbrev pub tasks_for : String → String → String → Result String String → List Task
tasks_for user_id room_id content (ok payload) =
    persists user_id room_id content
    ∷ publishes (record { room_id = room_id; payload = payload })
    ∷ []
tasks_for user_id room_id content (err e) = []
tasks_for user_id room_id content panic = []

module _ (json : Json) where
  unfoldable pub handle_message : Time → String → String → String → List Task
  handle_message now user_id room_id content =
      tasks_for user_id room_id content
        (json.marshal (outbound_message now user_id room_id content))

  -- the frame that `sendError` writes
  unfoldable pub send_error : String → String → String
  send_error code message = or_nil (json.marshal (outbound_error code message))

  abbrev pub by_type : Time → String → String → Inbound → Reaction
  by_type now user_id room_id inb =
      if inb.type == type_message
      then record { tasks = handle_message now user_id room_id inb.content; written = none }
      else record {
        tasks = [];
        written = some (send_error "unknown_type" (append "unknown message type: " inb.type));
      }

  abbrev pub react : Time → String → String → Result String Inbound → Reaction
  react now user_id room_id (ok inb) = by_type now user_id room_id inb
  react now user_id room_id (err e) = record {
    tasks = [];
    written = some (send_error "invalid_json" e);
  }
  react now user_id room_id panic = record { tasks = []; written = none }

  -- the body of the loop of `readLoop`
  unfoldable pub on_frame : Time → String → String → String → Reaction
  unfolding handle_message send_error
  on_frame now user_id room_id data' = react now user_id room_id (json.unmarshal data')

  -- `readLoop` over the frames, each with the time at which it is read, until reading ends
  unfoldable pub read_loop : String → String → List (Time × String) → List Task × List String
  unfolding on_frame
  read_loop user_id room_id [] = ([], [])
  read_loop user_id room_id ((now, data') ∷ frames) =
      let r = on_frame now user_id room_id data' in
      let (tasks, written) = read_loop user_id room_id frames in
      (r.tasks ++ tasks, elim r.written [ none ↦ written | some b ↦ b ∷ written ])
