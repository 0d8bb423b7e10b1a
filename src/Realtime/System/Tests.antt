-- ===== src/Realtime/System/Tests.antt =====
-- The theorem on the realtime service with the chat service behind it, for a member of a room.
use Prim.Native.Char.{Char}
use mathlib.Core.Bool.{false≢true}
use go_microservices_chat.Prelude.{
  ℕ, eqb, String, ◌≡◌, ◌≢◌, ◌⊎◌, refl, arith, eq_refl, eq_iff, ◌==◌, some, none, List, [], ◌∷◌,
  ◌++◌, if◌then◌else◌,
}
use go_microservices_chat.Go.Dict
use go_microservices_chat.Go.Exec.{ok}
use go_microservices_chat.Go.Strings.{trim_space}
use go_microservices_chat.Go.Time.{Time}
use go_microservices_chat.Auth.Context.{metadata_key_user_id}
use go_microservices_chat.Chat.UserClient as Users
use go_microservices_chat.Message.Cursor.{Codec}
use go_microservices_chat.Message.Grpc.Authorisation.{Stores}
use go_microservices_chat.Message.Tests.{toy}
use go_microservices_chat.Message.Service.{Call, new_message}
use go_microservices_chat.Realtime.Hub.{Client}
use go_microservices_chat.Realtime.Protocol.{Json}
use go_microservices_chat.Realtime.System.{World, Reach, idle, serving, absent}
use go_microservices_chat.Realtime.System.Overtaking.{Says}
use go_microservices_chat.Realtime.System.Stored.{Carries, Printable, chat_client, message_stored}
use go_microservices_chat.Room.Inmem.{members_of}

-- every frame is a message, and its content is its JSON
abbrev bare : Json
bare = record {
  marshal = λ out. ok out.content;
  unmarshal = λ frame. ok (record { type = "message"; content = frame });
}

-- the values of the pairs with the key
abbrev values : List (String × String) → String → List String
values [] key = []
values ((k, v) ∷ rest) key = let out = values rest key in if k == key then v ∷ out else out

values-Carries :
    (lower : Char → Char) (codec : Codec) (users : Users.Client) → Carries lower codec users values
values-Carries lower codec users value printable = ground (arith, eq_refl metadata_key_user_id)

abbrev users : Users.Client
users ctx ids = ok []

abbrev clients : ℕ → Client
clients k = record { user_id = "u1"; room_id = "r1" }

-- the user `u1` is in the room `r1`
abbrev one_member : Stores
one_member = (
  record { rooms = Dict.empty; members = Dict.put Dict.empty "r1" (Dict.put Dict.empty "u1" 5) },
  record { messages = [] },
)

-- client 0 has connected
abbrev start : World Stores
start = record (idle one_member) {
  phase = λ j. if eqb j 0 then serving else absent;
  writing = λ j. eqb j 0;
}

abbrev call : Call
call = record { now = 7; uuid = "m1" }

says : Says bare clients 0 0 "hello" "hello"
says = record { content = "hello"; read = refl; written = refl }

filled : trim_space says.content ≢ ""
unfolding trim_space says
filled e = false≢true ((eq_iff "hello" "").1 e)

user_filled : (clients 0).user_id ≢ ""
user_filled e = false≢true ((eq_iff "u1" "").1 e)

user-Printable : Printable (clients 0).user_id
user-Printable = ((omega arith, omega arith), ((omega arith, omega arith), tt))

room_filled : (clients 0).room_id ≢ ""
room_filled e = false≢true ((eq_iff "r1" "").1 e)

message_stored_example :
    (w' : World Stores) × Reach bare (chat_client (λ c. c) toy users values call) clients start w'
    × (((at : Time) × (Dict.get (members_of start.chat.0 (clients 0).room_id) (clients 0).user_id
            ≡ some at)
          × (w'.chat ≡ (
            start.chat.0,
            record {
              messages =
                  start.chat.1.messages
                  ++ new_message call
                      (clients 0).room_id
                      (clients 0).user_id
                      (trim_space says.content)
                    ∷ [];
            },
          )))
        ⊎ ((Dict.get (members_of start.chat.0 (clients 0).room_id) (clients 0).user_id ≡ none)
            × (w'.chat ≡ start.chat)))
message_stored_example =
    message_stored (λ c. c) toy users values bare clients call start 0 0 "hello" "hello"
      (values-Carries (λ c. c) toy users) refl says user_filled user-Printable room_filled filled
