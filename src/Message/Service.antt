-- ===== src/Message/Service.antt =====
-- services/chat-service/internal/message/service.go, over any repository.
pub mod Pages
use go_microservices_chat.Prelude.{
  ℕ, ◌+◌, ◌-◌, String, ◌||◌, Option, none, some, List, take, length, get_elem?, ltb, ◌==◌,
  if◌then◌else◌,
}
use go_microservices_chat.Go.Errors.{wrap}
use go_microservices_chat.Go.Exec.{Result, ok, panic, Exec, pure, raise, lift, ◌>>=◌}
use go_microservices_chat.Go.Int.{ℤ, pos, le_zero, to_nat}
use go_microservices_chat.Go.Strings.{trim_space}
use go_microservices_chat.Go.Time.{Time}
use go_microservices_chat.Chat.Errors.{ChatError, message_error, MessageSentinel}
use go_microservices_chat.Message.Types.{Message}
use go_microservices_chat.Message.Cursor.{Codec, encode_cursor, decode_cursor}
use go_microservices_chat.Message.Repository.{Repository}

abbrev pub default_list_limit : ℕ
default_list_limit = 50

abbrev pub max_list_limit : ℕ
max_list_limit = 200

-- what one call gets from outside: the clock and `uuid.NewString()`
pub record Call : Type 0 where
  pub now : Time
  pub uuid : String

unfoldable pub effective_limit : ℤ → ℤ
effective_limit limit =
    if le_zero limit
    then pos default_list_limit
    else if ltb max_list_limit (to_nat limit)
    then pos max_list_limit
    else limit

-- fmt.Errorf("%w: ...", ErrInvalidArgument)
abbrev pub invalid : String → ChatError
invalid why = wrap "" (message_error MessageSentinel.invalid_argument) why

abbrev pub new_message : Call → String → String → String → Message
new_message k room_id sender_id content = record {
  id = k.uuid;
  room_id = room_id;
  sender_id = sender_id;
  content = content;
  created_at = k.now;
}

-- the cursor of a message, and the page that it ends; without the message the index is out of range
abbrev cut : Codec → List Message → ℕ → Option Message → Result ChatError (List Message × String)
cut codec msgs limit none = panic
cut codec msgs limit (some last) =
    ok
      (take limit msgs, encode_cursor codec (record { created_at = last.created_at; id = last.id }))

-- the page and the next cursor, of up to `limit + 1` messages
unfoldable pub page : Codec → List Message → ℕ → Result ChatError (List Message × String)
page codec msgs limit =
    if ltb limit (length msgs)
    then cut codec msgs limit (get_elem? msgs (limit - 1))
    else ok (msgs, "")

module _ {S : Type 0} (repo : Repository S) where
  unfoldable pub send : Call → String → String → String → Exec S ChatError Message
  send k room_id sender_id content =
      if sender_id == "" || room_id == ""
      then raise (invalid ": room_id / sender_id required")
      else if trim_space content == ""
      then raise (invalid ": content is required")
      else repo.insert (new_message k room_id sender_id (trim_space content)) >>= λ _.
          pure (new_message k room_id sender_id (trim_space content))

  -- a limit in effect is positive
  unfoldable pub get_messages :
      Codec → String → ℤ → String → Exec S ChatError (List Message × String)
  get_messages codec room_id limit cursor =
      if room_id == "" then raise (invalid ": room_id required") else do
        cur ← lift (decode_cursor codec cursor)
        let limit = to_nat (effective_limit limit)
        msgs ← repo.list_by_room room_id (pos (limit + 1)) cur
        lift (page codec msgs limit)
