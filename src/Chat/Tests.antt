-- ===== src/Chat/Tests.antt =====
-- The theorems on the chat service after a room is created and a message sent.
use mathlib.Core.List.{Perm}
use mathlib.Core.Path.{subst}
use go_microservices_chat.Auth.Context.{requester_id}
use go_microservices_chat.Go.Dict
use go_microservices_chat.Go.Exec.{on_first, on_second, convert_err, ◌>>=◌}
use go_microservices_chat.Go.Sort.{sort_slice}
use go_microservices_chat.Go.Strings.{trim_space}
use go_microservices_chat.Chat.Server.{create_room, send_message}
use go_microservices_chat.Chat.Server.Calls.{after}
use go_microservices_chat.Room.Grpc as RoomGrpc
use go_microservices_chat.Room.Service as RoomService
use go_microservices_chat.Room.Inmem as Rooms
use go_microservices_chat.Message.Grpc as MessageGrpc
use go_microservices_chat.Message.Service as MessageService
use go_microservices_chat.Message.Inmem as Messages
use go_microservices_chat.Prelude.{
  sym, ◌+◌, ◌<◌, ◌≡◌, refl, some, List, [], ◌∷◌, ◌==◌, arith, All, length, keep,
}
use go_microservices_chat.Go.Exec.{ok}
use go_microservices_chat.Go.Int.{pos}
use go_microservices_chat.Go.Time.{unix_epoch}
use go_microservices_chat.Chat.UserClient.{Client}
use go_microservices_chat.Chat.Server.Calls.{Rpc, creates_room, sends_message, serve, ServerValid}
use go_microservices_chat.Chat.Server.Invariant.{empty_stores, empty_stores-ServerValid}
use go_microservices_chat.Chat.Server.Reachable.{serve-ServerValid, serve-walk}
use go_microservices_chat.Room.Tests.{as_user, call as room_call}
use go_microservices_chat.Message.Inmem.History.{history, Descends}
use go_microservices_chat.Message.Service.{Call}
use go_microservices_chat.Message.Service.Pages.{RoundTrips, walk}
use go_microservices_chat.Message.Tests.{toy, hello_trips, m1-Filled, r1-Filled, one_message}
use go_microservices_chat.Message.Types.{Message}

abbrev users : Client
users ctx ids = ok []

abbrev send_call : Call
send_call = record { now = unix_epoch + 7; uuid = "m1" }

abbrev calls : List Rpc
calls =
    creates_room (as_user "u1") room_call "lobby"
    ∷ sends_message (as_user "u1") send_call "r1" "" "hello"
    ∷ []

serve-ServerValid_example : ServerValid (serve (λ c. c) users toy empty_stores calls)
serve-ServerValid_example =
    serve-ServerValid (λ c. c) users toy empty_stores calls empty_stores-ServerValid
      (tt, ((m1-Filled, (omega arith, omega arith)), tt)) ((tt, tt), (tt, tt)) (tt, (tt, tt))

stored : (serve (λ c. c) users toy empty_stores calls).1 ≡ one_message
unfolding serve after create_room send_message RoomGrpc.create_room RoomService.create_room
    RoomService.create_room_as RoomService.ensure_member Rooms.create_room Rooms.add_member
    Rooms.join_map Rooms.is_member MessageGrpc.send_message MessageGrpc.send_message_as
    MessageService.send Messages.insert requester_id trim_space Dict.get Dict.put Dict.empty
    on_first on_second convert_err ◌>>=◌
stored = refl

in_history : length (history "r1" one_message) < 2
unfolding history sort_slice
in_history = omega arith

serve-walk_example :
    (l : List Message) × (walk toy "r1" (pos 1) (serve (λ c. c) users toy empty_stores calls).1 2 ""
      ≡ some l)
    × Descends l
    × Perm l
        (keep (λ m. m.room_id == "r1") (serve (λ c. c) users toy empty_stores calls).1.messages)
serve-walk_example =
    serve-walk (λ c. c) users toy calls (tt, ((m1-Filled, (omega arith, omega arith)), tt))
      ((tt, tt), (tt, tt)) "r1" (pos 1) 2 r1-Filled
      (subst (λ r. All (RoundTrips toy) r.messages) (sym stored) (hello_trips, tt))
      (subst (λ r. length (history "r1" r) < 2) (sym stored) in_history)
