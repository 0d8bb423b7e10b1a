-- ===== src/Chat/Server.antt =====
-- services/chat-service/internal/grpc/server.go: each RPC goes to the adapter of rooms or of messages.
-- The requests of gen/go/chat/v1 are given field by field.
pub mod Calls
pub mod Invariant
pub mod Reachable
use go_microservices_chat.Prelude.{String, List, []}
use go_microservices_chat.Go.Exec.{Exec, on_first}
use go_microservices_chat.Go.Int.{ℤ}
use go_microservices_chat.Go.Status.{Status}
use go_microservices_chat.Auth.Context.{Context}
use go_microservices_chat.Chat.UserClient.{Client}
use go_microservices_chat.Room.Grpc as Rooms
use go_microservices_chat.Room.Grpc.{RoomMessage, RoomMember}
use go_microservices_chat.Room.Repository.{Repository as RoomRepository}
use go_microservices_chat.Room.Service.{Call as RoomCall}
use go_microservices_chat.Message.Cursor.{Codec}
use go_microservices_chat.Message.Grpc as Messages
use go_microservices_chat.Message.Grpc.{MessageProto}
use go_microservices_chat.Message.Repository.{Repository as MessageRepository}
use go_microservices_chat.Message.Service.{Call as MessageCall}

-- `Server`, with what its adapters were made of
pub record Server (R M : Type 0) : Type 0 where
  pub rooms : RoomRepository R
  pub users : Client
  pub messages : MessageRepository M
  pub codec : Codec

module _ {R M : Type 0} (s : Server R M) where
  abbrev Method : Type 0 → Type 0
  Method A = Exec (R × M) Status A

  unfoldable pub create_room : Context → RoomCall → String → Method RoomMessage
  create_room ctx k name = on_first (Rooms.create_room s.rooms s.users ctx k name)

  unfoldable pub get_room : String → Method RoomMessage
  get_room room_id = on_first (Rooms.get_room s.rooms s.users room_id)

  unfoldable pub list_rooms : Context → ℤ → String → Method (List RoomMessage × String)
  list_rooms ctx limit cursor = on_first (Rooms.list_rooms s.rooms s.users ctx limit cursor)

  unfoldable pub search_rooms : String → ℤ → String → Method (List RoomMessage × String)
  search_rooms query limit cursor = on_first (Rooms.search_rooms s.rooms s.users query limit cursor)

  unfoldable pub join_room : Context → RoomCall → String → Method (Unit {0})
  join_room ctx k room_id = on_first (Rooms.join_room s.rooms s.users ctx k room_id)

  unfoldable pub leave_room : Context → String → Method (Unit {0})
  leave_room ctx room_id = on_first (Rooms.leave_room s.rooms s.users ctx room_id)

  unfoldable pub list_room_members : Context → String → Method (List RoomMember × String)
  list_room_members ctx room_id = on_first (Rooms.list_room_members s.rooms s.users ctx room_id)

  unfoldable pub send_message :
      Context → MessageCall → String → String → String → Method MessageProto
  send_message = Messages.send_message s.rooms s.messages

  unfoldable pub get_messages : Context → String → ℤ → String → Method (List MessageProto × String)
  get_messages = Messages.get_messages s.rooms s.messages s.codec
