-- ===== src/Chat/Errors.antt =====
-- The sentinel errors of services/chat-service/internal/room/room.go and message/message.go. Both
-- stand in one type, since the message adapter passes errors of the room service on.
use go_microservices_chat.Prelude.{String}
use go_microservices_chat.Go.Errors.{GoError, sentinel}
use go_microservices_chat.Go.Errors

pub data RoomSentinel : Type 0 where
  not_found already_member not_member invalid_argument : RoomSentinel

pub data MessageSentinel : Type 0 where
  invalid_argument invalid_cursor : MessageSentinel

pub data ChatSentinel : Type 0 where
  room : RoomSentinel → ChatSentinel
  message : MessageSentinel → ChatSentinel

abbrev pub ChatError : Type 0
ChatError = GoError ChatSentinel

abbrev pub room_error : RoomSentinel → ChatError
room_error e = sentinel (room e)

abbrev pub message_error : MessageSentinel → ChatError
message_error e = sentinel (message e)

abbrev pub sentinel_text : ChatSentinel → String
sentinel_text (room not_found) = "room: not found"
sentinel_text (room already_member) = "room: already a member"
sentinel_text (room not_member) = "room: not a member"
sentinel_text (room RoomSentinel.invalid_argument) = "room: invalid argument"
sentinel_text (message MessageSentinel.invalid_argument) = "message: invalid argument"
sentinel_text (message invalid_cursor) = "message: invalid cursor"

-- `err.Error()`
abbrev pub error_text : ChatError → String
error_text = Errors.text sentinel_text
