-- ===== src/Chat/Server/Calls.antt =====
-- Sequences of calls to the chat service over the repositories in memory, and what is claimed of
-- its stores.
use Prim.Native.Char.{Char}
use go_microservices_chat.Prelude.{String, ◌≢◌, List, [], ◌∷◌, All}
use go_microservices_chat.Go.Int.{ℤ}
use go_microservices_chat.Go.Time.{InRange}
use go_microservices_chat.Auth.Context.{Context}
use go_microservices_chat.Chat.UserClient.{Client}
use go_microservices_chat.Chat.Server.{
  Server, create_room, get_room, list_rooms, search_rooms, join_room, leave_room, list_room_members,
  send_message, get_messages,
}
use go_microservices_chat.Room.Inmem as Rooms
use go_microservices_chat.Room.Inmem.Existing.{Existing}
use go_microservices_chat.Room.Inmem.Invariant.{IsValid}
use go_microservices_chat.Room.Service.{Call as RoomCall}
use go_microservices_chat.Message.Cursor.{Codec}
use go_microservices_chat.Message.Grpc.Authorisation.{Stores}
use go_microservices_chat.Message.Inmem as Messages
use go_microservices_chat.Message.Inmem.History as History
use go_microservices_chat.Message.Service.{Call as MessageCall}
use go_microservices_chat.Message.Types.{Message}

-- the calls that reach the server
pub data Rpc : Type 0 where
  creates_room : Context → RoomCall → String → Rpc
  gets_room : String → Rpc
  lists_rooms : Context → ℤ → String → Rpc
  searches_rooms : String → ℤ → String → Rpc
  joins_room : Context → RoomCall → String → Rpc
  leaves_room : Context → String → Rpc
  lists_members : Context → String → Rpc
  sends_message : Context → MessageCall → String → String → String → Rpc
  gets_messages : Context → String → ℤ → String → Rpc

module _ (lower : Char → Char) (users : Client) (codec : Codec) where
  -- the server over the repositories in memory
  abbrev pub server : Server Rooms.InMemRepository Messages.InMemRepository
  server = record {
    rooms = Rooms.inmem lower;
    users = users;
    messages = Messages.inmem;
    codec = codec;
  }

  -- the stores after a call, whatever the call returned
  unfoldable pub after : Stores → Rpc → Stores
  after s (creates_room ctx k name) = (create_room server ctx k name s).1
  after s (gets_room id) = (get_room server id s).1
  after s (lists_rooms ctx limit cursor) = (list_rooms server ctx limit cursor s).1
  after s (searches_rooms query limit cursor) = (search_rooms server query limit cursor s).1
  after s (joins_room ctx k id) = (join_room server ctx k id s).1
  after s (leaves_room ctx id) = (leave_room server ctx id s).1
  after s (lists_members ctx id) = (list_room_members server ctx id s).1
  after s (sends_message ctx k id sender content) =
      (send_message server ctx k id sender content s).1
  after s (gets_messages ctx id limit cursor) = (get_messages server ctx id limit cursor s).1

  unfoldable pub serve : Stores → List Rpc → Stores
  serve s [] = s
  serve s (call ∷ calls) = serve (after s call) calls

-- a message that may be stored beside these rooms: it is in a room that exists, and neither its sender
-- nor its content is empty
abbrev pub Posted : Rooms.InMemRepository → Message → Type 0
Posted rooms m = Existing m.room_id rooms × (m.sender_id ≢ "") × (m.content ≢ "")

pub record ServerValid (s : Stores) : Type 0 where
  pub rooms : IsValid s.0
  pub messages : History.IsValid s.1
  pub posted : All (Posted s.0) s.1.messages

-- what the UUID and the clock of a call that sends give
abbrev pub Usable : Rpc → Type 0
Usable (sends_message ctx k id sender content) = (k.uuid ≢ "") × InRange k.now
Usable call = Unit

abbrev pub Unused : Rpc → Message → Type 0
Unused (sends_message ctx k id sender content) m = m.id ≢ k.uuid
Unused call m = Unit

abbrev pub Apart : Rpc → Rpc → Type 0
Apart (sends_message ctx k id sender content) (sends_message ctx' k' id' sender' content') =
    k.uuid ≢ k'.uuid
Apart call call' = Unit
