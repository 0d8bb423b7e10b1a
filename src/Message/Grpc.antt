-- ===== src/Message/Grpc.antt =====
-- services/chat-service/internal/message/grpc.go. Requests and responses are the messages of
-- gen/go/chat/v1; the two stores are the room repository and the message repository.
pub mod Authorisation
use go_microservices_chat.Prelude.{
  String, not, ◌&&◌, Option, none, some, List, map, ◌==◌, if◌then◌else◌,
}
use go_microservices_chat.Go.Errors.{root}
use go_microservices_chat.Go.Exec.{Exec, pure, raise, convert_err, on_first, on_second, ◌>>=◌, ◌>>◌}
use go_microservices_chat.Go.Int.{ℤ}
use go_microservices_chat.Go.Status.{Code, Status, internal, unauthenticated, permission_denied}
use go_microservices_chat.Go.Time.{Time}
use go_microservices_chat.Auth.Context.{Context, requester_id}
use go_microservices_chat.Chat.Errors.{
  ChatSentinel, ChatError, room, message, not_found, already_member, not_member, RoomSentinel,
  error_text,
}
use go_microservices_chat.Message.Types.{Message}
use go_microservices_chat.Message.Cursor.{Codec}
use go_microservices_chat.Message.Repository.{Repository}
use go_microservices_chat.Message.Service
use go_microservices_chat.Message.Service.{Call}
use go_microservices_chat.Room.Service.{ensure_member}
use go_microservices_chat.Room.Repository.{Repository as RoomRepository}

pub record MessageProto : Type 0 where
  pub id : String
  pub room_id : String
  pub sender_id : String
  pub content : String
  pub created_at : Time

unfoldable pub to_proto : Message → MessageProto
to_proto m = record {
  id = m.id;
  room_id = m.room_id;
  sender_id = m.sender_id;
  content = m.content;
  created_at = m.created_at;
}

-- the `switch` on `errors.Is`
abbrev pub code_of : Option ChatSentinel → Code
code_of (some (message e)) = Code.invalid_argument
code_of (some (room not_found)) = Code.not_found
code_of (some (room not_member)) = permission_denied
code_of (some (room already_member)) = internal
code_of (some (room RoomSentinel.invalid_argument)) = internal
code_of none = internal

unfoldable pub map_error : ChatError → Status
map_error e = record { code = code_of (root e); message = error_text e }

abbrev pub missing : Status
missing = record { code = unauthenticated; message = "missing x-user-id" }

abbrev pub impersonated : Status
impersonated = record {
  code = permission_denied;
  message = "sender_id does not match authenticated user";
}

module _ {R M : Type 0} (rooms : RoomRepository R) (repo : Repository M) where
  -- `SendMessage` once the requester is known
  unfoldable pub send_message_as :
      Call → String → String → String → String → Exec (R × M) Status MessageProto
  send_message_as k requester room_id sender_id content =
      if not (sender_id == "") && not (sender_id == requester) then raise impersonated else do
        on_first (convert_err map_error (ensure_member rooms room_id requester))
        m ← on_second (convert_err map_error (Service.send repo k room_id requester content))
        pure (to_proto m)

  unfoldable pub send_message :
      Context → Call → String → String → String → Exec (R × M) Status MessageProto
  unfolding send_message_as
  send_message ctx k room_id sender_id content = elim (requester_id ctx) [
    | none ↦ raise missing
    | some requester ↦ send_message_as k requester room_id sender_id content
  ]

  -- `GetMessages` once the requester is known
  unfoldable pub get_messages_as :
      Codec → String → String → ℤ → String → Exec (R × M) Status (List MessageProto × String)
  get_messages_as codec requester room_id limit cursor = do
    on_first (convert_err map_error (ensure_member rooms room_id requester))
    (msgs, next) ←
        on_second (convert_err map_error (Service.get_messages repo codec room_id limit cursor))
    pure (map to_proto msgs, next)

  unfoldable pub get_messages :
      Codec → Context → String → ℤ → String → Exec (R × M) Status (List MessageProto × String)
  unfolding get_messages_as
  get_messages codec ctx room_id limit cursor = elim (requester_id ctx) [
    | none ↦ raise missing
    | some requester ↦ get_messages_as codec requester room_id limit cursor
  ]
