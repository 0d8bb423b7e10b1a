-- ===== src/Message/Tests.antt =====
-- The theorems on messages at a room with one message.
use mathlib.Core.Bool.{false≢true}
use mathlib.Core.List.{Perm}
use go_microservices_chat.Prelude.{
  ◌+◌, ◌<◌, String, ◌≡◌, ◌≢◌, ◌⊎◌, refl, none, some, List, [], ◌∷◌, arith, ◌==◌, eq_iff, inl,
  length, keep,
}
use go_microservices_chat.Go.Dict
use go_microservices_chat.Go.Exec.{ok, err, ◌>>=◌}
use go_microservices_chat.Go.Int.{pos}
use go_microservices_chat.Go.Sort.{sort_slice}
use go_microservices_chat.Go.Status.{Status, permission_denied}
use go_microservices_chat.Go.Strings.{trim_space}
use go_microservices_chat.Go.Time.{unix_epoch}
use go_microservices_chat.Auth.Context.{requester_id}
use go_microservices_chat.Room.Inmem.{members_of}
use go_microservices_chat.Room.Inmem as Rooms
use go_microservices_chat.Room.Tests.{as_user, with_lobby, as_u1, as_u2}
use go_microservices_chat.Message.Types.{Message}
use go_microservices_chat.Message.Cursor.{Codec}
use go_microservices_chat.Message.Inmem.{InMemRepository, inmem}
use go_microservices_chat.Message.Inmem.History.{IsValid, history, Descends}
use go_microservices_chat.Message.Service.{Call, new_message}
use go_microservices_chat.Message.Service.Pages.{RoundTrips, walk, walk_complete}
use go_microservices_chat.Message.Grpc
use go_microservices_chat.Message.Grpc.{send_message, send_message_as, to_proto}
use go_microservices_chat.Message.Grpc.Authorisation.{
  Stores, sent, send_message_authorised, send_message_lem, not_member_denied,
}

abbrev pub hello : Message
hello = record {
  id = "m1";
  room_id = "r1";
  sender_id = "u1";
  content = "hello";
  created_at = unix_epoch + 7;
}

abbrev pub one_message : InMemRepository
one_message = record { messages = hello ∷ [] }

abbrev nothing : InMemRepository
nothing = record { messages = [] }

-- encoders that know one cursor
abbrev pub toy : Codec
toy = record {
  marshal = λ w. some (123 ∷ 125 ∷ []);
  unmarshal = λ b. ok (record { c = hello.created_at; i = hello.id });
}

abbrev Filled : String → Type 0
Filled s = s ≢ ""

pub m1-Filled : Filled hello.id
m1-Filled e = false≢true ((eq_iff "m1" "").1 e)

pub r1-Filled : Filled "r1"
r1-Filled e = false≢true ((eq_iff "r1" "").1 e)

u1-Filled : Filled "u1"
u1-Filled e = false≢true ((eq_iff "u1" "").1 e)

pub hello_trips : RoundTrips toy hello
hello_trips = (123, 125 ∷ [], refl, (omega arith, (omega arith, tt)), refl)

one_message-IsValid : IsValid one_message
one_message-IsValid = record {
  distinct = (tt, tt);
  ids = (m1-Filled, tt);
  times = ((omega arith, omega arith), tt);
}

one_in_history : length (history "r1" one_message) < 2
unfolding history sort_slice
one_in_history = omega arith

walk_complete_example :
    (l : List Message) × (walk toy "r1" (pos 1) one_message 2 "" ≡ some l)
    × Descends l
    × Perm l (keep (λ m. m.room_id == "r1") one_message.messages)
walk_complete_example =
    walk_complete toy "r1" (pos 1) one_message one_message-IsValid (hello_trips, tt) r1-Filled 2
      one_in_history

abbrev unclaimed : String
unclaimed = ""

abbrev before : Stores
before = (with_lobby, nothing)

abbrev call : Call
call = record { now = unix_epoch + 7; uuid = "m1" }

u1_joined : Dict.get (members_of with_lobby "r1") "u1" ≡ some 6
unfolding Dict.get Dict.put Dict.empty
u1_joined = refl

u2_out : Dict.get (members_of with_lobby "r1") "u2" ≡ none
unfolding Dict.get Dict.put Dict.empty
u2_out = refl

hello-Filled : trim_space " hello" ≢ ""
unfolding trim_space
hello-Filled e = false≢true ((eq_iff "hello" "").1 e)

abbrev lobby_said : String → Stores
lobby_said content =
    (with_lobby, record { messages = new_message call "r1" "u1" (trim_space content) ∷ [] })

hello_sent :
    sent (λ c. c) (as_user "u1") call "r1" "" " hello" with_lobby nothing
    ≡ (ok (to_proto (new_message call "r1" "u1" (trim_space " hello"))), lobby_said " hello")
hello_sent =
    send_message_lem (λ c. c) (as_user "u1") call "r1" "" " hello" with_lobby nothing "u1" 6 as_u1
      (inl refl) u1_joined u1-Filled r1-Filled hello-Filled

send_message_authorised_example :
    (me : String) × (requester_id (as_user "u1") ≡ some me)
    × ((unclaimed ≡ "") ⊎ (unclaimed ≡ me))
    × (Dict.get (members_of with_lobby "r1") me ≢ none)
    × (trim_space " hello" ≢ "")
    × (let m = new_message call "r1" me (trim_space " hello") in
        (to_proto (new_message call "r1" "u1" (trim_space " hello")) ≡ to_proto m)
        × (lobby_said " hello" ≡ (with_lobby, record { messages = m ∷ [] })))
send_message_authorised_example =
    send_message_authorised (λ c. c) (as_user "u1") call "r1" "" " hello" with_lobby nothing
      (to_proto (new_message call "r1" "u1" (trim_space " hello"))) (lobby_said " hello") hello_sent

u2_refused :
    sent (λ c. c) (as_user "u2") call "r1" "u1" " hello" with_lobby nothing
    ≡ (err Grpc.impersonated, (with_lobby, nothing))
unfolding send_message send_message_as requester_id ◌>>=◌
u2_refused = refl

not_member_denied_example :
    (e e' : Status) × (sent (λ c. c) (as_user "u2") call "r1" "" " hello" with_lobby nothing
      ≡ (err e, (with_lobby, nothing)))
    × (Grpc.get_messages
          (Rooms.inmem (λ c. c))
          inmem
          toy
          (as_user "u2")
          "r1"
          (pos 1)
          ""
          (with_lobby, nothing)
        ≡ (err e', (with_lobby, nothing)))
    × (e.code ≡ permission_denied)
    × (e'.code ≡ permission_denied)
not_member_denied_example =
    not_member_denied (λ c. c) (as_user "u2") call "r1" "" " hello" with_lobby nothing toy (pos 1)
      "" "u2" as_u2 u2_out
