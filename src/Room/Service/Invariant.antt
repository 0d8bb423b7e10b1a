-- ===== src/Room/Service/Invariant.antt =====
-- Every RPC of the room service keeps the maps valid.
use Prim.Native.Char.{Char}
use go_microservices_chat.Prelude.{String, List, [], ◌∷◌}
use go_microservices_chat.Go.Int.{ℤ}
use go_microservices_chat.Auth.Context.{Context}
use go_microservices_chat.Room.Inmem.{InMemRepository, inmem}
use go_microservices_chat.Room.Inmem.Invariant.{
  IsValid, create_room-IsValid, get_room-IsValid, list_rooms_by_member-IsValid,
  search_rooms-IsValid, add_member-IsValid, remove_member-IsValid, list_members-IsValid,
  is_member-IsValid, count_members-IsValid,
}
use go_microservices_chat.Room.Service.Keeps.{
  RepositoryKeeps, create_room-Keeps, get_room-Keeps, list_room_members-Keeps, list_my_rooms-Keeps,
  search_rooms-Keeps, join_room-Keeps, leave_room-Keeps, ensure_member-Keeps,
}
use go_microservices_chat.Room.Service.{
  Call, create_room, get_room, list_room_members, list_my_rooms, search_rooms, join_room,
  leave_room, ensure_member,
}

-- the calls that reach the service, with their arguments
pub data Rpc : Type 0 where
  creates_room : Context → Call → String → Rpc
  gets_room : String → Rpc
  lists_members : String → Rpc
  lists_rooms : Context → ℤ → String → Rpc
  searches : String → ℤ → String → Rpc
  joins : Context → Call → String → Rpc
  leaves : Context → String → Rpc
  ensures : String → String → Rpc

pub inmem-IsValid : (lower : Char → Char) → RepositoryKeeps IsValid (inmem lower)
inmem-IsValid lower = record {
  create_room = create_room-IsValid;
  get_room = get_room-IsValid;
  list_rooms_by_member = list_rooms_by_member-IsValid;
  search_rooms = search_rooms-IsValid lower;
  add_member = add_member-IsValid;
  remove_member = remove_member-IsValid;
  list_members = list_members-IsValid;
  is_member = is_member-IsValid;
  count_members = count_members-IsValid;
}

module _ (lower : Char → Char) where
  -- the store after a call, whatever the call returned
  unfoldable pub after : InMemRepository → Rpc → InMemRepository
  after r (creates_room ctx k name) = (create_room (inmem lower) ctx k name r).1
  after r (gets_room id) = (get_room (inmem lower) id r).1
  after r (lists_members id) = (list_room_members (inmem lower) id r).1
  after r (lists_rooms ctx limit cursor) = (list_my_rooms (inmem lower) ctx limit cursor r).1
  after r (searches query limit cursor) = (search_rooms (inmem lower) query limit cursor r).1
  after r (joins ctx k id) = (join_room (inmem lower) ctx k id r).1
  after r (leaves ctx id) = (leave_room (inmem lower) ctx id r).1
  after r (ensures id user_id) = (ensure_member (inmem lower) id user_id r).1

  unfoldable pub serve : InMemRepository → List Rpc → InMemRepository
  serve r [] = r
  serve r (call ∷ calls) = serve (after r call) calls

  after-IsValid : (r : InMemRepository) (call : Rpc) → IsValid r → IsValid (after r call)
  unfolding after
  after-IsValid r (creates_room ctx k name) v =
      (create_room-Keeps IsValid (inmem lower) (inmem-IsValid lower) ctx k name).at r v
  after-IsValid r (gets_room id) v =
      (get_room-Keeps IsValid (inmem lower) (inmem-IsValid lower) id).at r v
  after-IsValid r (lists_members id) v =
      (list_room_members-Keeps IsValid (inmem lower) (inmem-IsValid lower) id).at r v
  after-IsValid r (lists_rooms ctx limit cursor) v =
      (list_my_rooms-Keeps IsValid (inmem lower) (inmem-IsValid lower) ctx limit cursor).at r v
  after-IsValid r (searches query limit cursor) v =
      (search_rooms-Keeps IsValid (inmem lower) (inmem-IsValid lower) query limit cursor).at r v
  after-IsValid r (joins ctx k id) v =
      (join_room-Keeps IsValid (inmem lower) (inmem-IsValid lower) ctx k id).at r v
  after-IsValid r (leaves ctx id) v =
      (leave_room-Keeps IsValid (inmem lower) (inmem-IsValid lower) ctx id).at r v
  after-IsValid r (ensures id user_id) v =
      (ensure_member-Keeps IsValid (inmem lower) (inmem-IsValid lower) id user_id).at r v

  -- From valid maps, any sequence of calls to the room service, successful or not, leaves valid
  -- maps: each room stands under its own id, and exactly the rooms that exist have a map of members.
  pub serve_rooms-IsValid :
      (r : InMemRepository) (calls : List Rpc) → IsValid r → IsValid (serve r calls)
  unfolding serve
  serve_rooms-IsValid r [] v = v
  serve_rooms-IsValid r (call ∷ calls) v =
      serve_rooms-IsValid (after r call) calls (after-IsValid r call v)
