-- ===== src/Realtime/System/Stored.antt =====
-- The realtime service with the chat service behind it: `grpcClient.SendMessage` of
-- services/realtime-service/internal/chatclient/client.go calls the RPC of
-- services/chat-service/internal/grpc/server.go. What gRPC does with metadata is a parameter.
use Prim.Native.Char.{Char, code}
use Prim.Native.String.{String}
use go_microservices_chat.Prelude.{
  ℕ, ◌≤◌, ◌≡◌, ◌≢◌, ◌⊎◌, inl, inr, refl, ap, none, some, List, [], ◌∷◌, ◌++◌, arith, Option-cases,
  eq_iff,
}
use go_microservices_chat.Go.Dict
use go_microservices_chat.Go.Exec.{Exec, convert_err, ◌>>=◌, pure}
use go_microservices_chat.Go.Int.{pos}
use go_microservices_chat.Go.Status.{Status}
use go_microservices_chat.Go.Strings.{trim_space}
use go_microservices_chat.Go.Time.{Time}
use go_microservices_chat.Auth.Context.{Context, requester_id, metadata_key_user_id}
use go_microservices_chat.Chat.Server
use go_microservices_chat.Chat.Server.{Server}
use go_microservices_chat.Chat.UserClient as Users
use go_microservices_chat.Message.Cursor.{Codec}
use go_microservices_chat.Message.Grpc.{MessageProto}
use go_microservices_chat.Message.Grpc.Authorisation.{Stores, send_message_lem, not_member_denied}
use go_microservices_chat.Message.Inmem as Messages
use go_microservices_chat.Message.Service.{Call, new_message}
use go_microservices_chat.Realtime.ChatClient
use go_microservices_chat.Realtime.Handler.{publishes}
use go_microservices_chat.Realtime.Hub.{Client}
use go_microservices_chat.Realtime.Protocol.{Json}
use go_microservices_chat.Realtime.System.{
  World, Reach, here, next, reads, stores, background, serving,
}
use go_microservices_chat.Realtime.System.Overtaking.{Says, event, frame_tasks}
use go_microservices_chat.Room.Inmem as Rooms
use go_microservices_chat.Room.Inmem.{members_of}

-- a character that gRPC accepts in the value of a metadata key without `-bin`: 0x20 to 0x7e
abbrev pub PrintableChar : Char → Type 0
PrintableChar c = (32 ≤ code c) × (code c ≤ 126)

abbrev pub Printable : String → Type 0
Printable String.[] = Unit
Printable (String.◌∷◌ c rest) = PrintableChar c × Printable rest

-- `carry` is what a server finds of the metadata that its client has appended
module _ (lower : Char → Char) (codec : Codec) (users : Users.Client)
    (carry : List (String × String) → String → List String) where
  abbrev server : Server Rooms.InMemRepository Messages.InMemRepository
  server = record {
    rooms = Rooms.inmem lower;
    users = users;
    messages = Messages.inmem;
    codec = codec;
  }

  -- the context that a handler of the server is called with
  abbrev pub received : Context → Context
  received ctx = record { incoming = some (carry ctx.outgoing); outgoing = [] }

  -- the RPC, with what the chat service draws for it; an error is its text
  unfoldable pub send_rpc :
      Call → Context → String → String → String → Exec Stores String MessageProto
  send_rpc k ctx room_id sender_id content =
      convert_err (λ (e : Status). e.message)
        (Server.send_message server (received ctx) k room_id sender_id content)

  unfoldable pub chat_client : Call → ChatClient.Client Stores
  unfolding send_rpc
  chat_client k = ChatClient.send_message (send_rpc k)

  -- one value for a key that is not reserved arrives as it was, if it is printable ASCII
  abbrev pub Carries : Type 0
  Carries =
      (value : String)
      → Printable value
      → carry ((metadata_key_user_id, value) ∷ []) metadata_key_user_id ≡ value ∷ []

  module _ (k : Call) (carries : Carries) (user_id room_id content : String)
      (rooms : Rooms.InMemRepository) (r : Messages.InMemRepository) (named : user_id ≢ "")
      (printable : Printable user_id) where
    abbrev ctx : Context
    ctx = received (ChatClient.with_sender background user_id)

    recognised : requester_id ctx ≡ some user_id
    unfolding requester_id
    recognised = rw (carries user_id printable) (ground (arith, eq_iff user_id "", named))

    client_stores :
        (at : Time)
        → Dict.get (members_of rooms room_id) user_id ≡ some at
        → room_id ≢ ""
        → trim_space content ≢ ""
        → (chat_client k background user_id room_id content (rooms, r)).1 ≡ (
          rooms,
          record {
            messages = r.messages ++ new_message k room_id user_id (trim_space content) ∷ [];
          },
        )
    unfolding chat_client ChatClient.send_message Server.send_message ◌>>=◌ convert_err pure
    client_stores at member known filled =
        rw
          (send_message_lem lower ctx k room_id user_id content rooms r user_id at recognised
            (inr refl) member named known filled)
          refl

    client_refused :
        Dict.get (members_of rooms room_id) user_id ≡ none
        → (chat_client k background user_id room_id content (rooms, r)).1 ≡ (rooms, r)
    unfolding chat_client ChatClient.send_message Server.send_message ◌>>=◌ convert_err pure
    client_refused out =
        let (e, e', at, _, _, _) =
          not_member_denied lower ctx k room_id user_id content rooms r codec (pos 0) "" user_id
            recognised out in
        rw at refl

  -- From any state of the realtime service, with the chat service behind it: a message that an open
  -- connection sends can be given to the chat service next. If the user of the connection is a member of the room,
  -- it is stored behind the other messages, under the user's own id and with the trimmed content.
  -- Otherwise nothing is stored. The user id and the room id are not empty, the content is not blank,
  -- the user id is printable ASCII, and gRPC hands such metadata over under the key of the user id.
  pub message_stored :
      (json : Json) (clients : ℕ → Client) (k : Call) (w : World Stores) (j : ℕ) (now : Time)
      (frame payload : String)
      → Carries
      → w.phase j ≡ serving
      → (says : Says json clients j now frame payload) → (clients j).user_id ≢ ""
      → Printable (clients j).user_id
      → (clients j).room_id ≢ ""
      → trim_space says.content ≢ ""
      → (w' : World Stores) × Reach json (chat_client k) clients w w'
        × (((at : Time) × (Dict.get (members_of w.chat.0 (clients j).room_id) (clients j).user_id
                ≡ some at)
              × (w'.chat ≡ (
                w.chat.0,
                record {
                  messages =
                      w.chat.1.messages
                      ++ new_message k
                          (clients j).room_id
                          (clients j).user_id
                          (trim_space says.content)
                        ∷ [];
                },
              )))
            ⊎ ((Dict.get (members_of w.chat.0 (clients j).room_id) (clients j).user_id ≡ none)
                × (w'.chat ≡ w.chat)))
  message_stored json clients k w j now frame payload carries alive says named printable known
        filled =
      let user_id = (clients j).user_id in
      let room_id = (clients j).room_id in
      let e = ap (λ l. w.tasks ++ l) (frame_tasks json clients j now frame payload says) in
      let (rooms, r) = w.chat in
      (
        _,
        next (next here (reads j now frame alive)) (
            stores w.tasks (publishes (event json clients j payload) ∷ []) user_id room_id
              says.content e),
        elim (Option-cases (Dict.get (members_of rooms room_id) user_id)) [
          | inr (at, member) ↦ inl (
            at,
            member,
            client_stores k carries user_id room_id says.content rooms r named printable at member
                known filled,
          )
          | inl out ↦ inr (
            out,
            client_refused k carries user_id room_id says.content rooms r named printable out,
          )
        ],
      )
