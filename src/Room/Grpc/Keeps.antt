-- ===== src/Room/Grpc/Keeps.antt =====
-- Whatever every method of a repository keeps, every RPC of the room adapter keeps.
use go_microservices_chat.Prelude.{String}
use go_microservices_chat.Go.Exec.Keeps.{Keeps, keeps_rules}
use go_microservices_chat.Go.Int.{ℤ}
use go_microservices_chat.Auth.Context.{Context}
use go_microservices_chat.Chat.UserClient.{Client}
use go_microservices_chat.Room.Repository.{Repository}
use go_microservices_chat.Room.Service.{Call}
use go_microservices_chat.Room.Service.Keeps as ServiceKeeps
use go_microservices_chat.Room.Service.Keeps.{RepositoryKeeps}
use go_microservices_chat.Room.Grpc.{
  create_room, get_room, list_rooms, search_rooms, join_room, leave_room, list_room_members,
}

module _ {S : Type 0} (Inv : S → Type 0) (repo : Repository S) (k : RepositoryKeeps Inv repo)
    (client : Client) where
  pub create_room-Keeps :
      (ctx : Context) (c : Call) (name : String) → Keeps Inv (create_room repo client ctx c name)
  unfolding create_room
  create_room-Keeps ctx c name = search (keeps_rules, ServiceKeeps.create_room-Keeps Inv repo k)

  pub get_room-Keeps : (id : String) → Keeps Inv (get_room repo client id)
  unfolding get_room
  get_room-Keeps id = search (keeps_rules, ServiceKeeps.get_room-Keeps Inv repo k)

  pub list_rooms-Keeps :
      (ctx : Context) (limit : ℤ) (cursor : String)
      → Keeps Inv (list_rooms repo client ctx limit cursor)
  unfolding list_rooms
  list_rooms-Keeps ctx limit cursor =
      search (keeps_rules, ServiceKeeps.list_my_rooms-Keeps Inv repo k)

  pub search_rooms-Keeps :
      (query : String) (limit : ℤ) (cursor : String)
      → Keeps Inv (search_rooms repo client query limit cursor)
  unfolding search_rooms
  search_rooms-Keeps query limit cursor =
      search (keeps_rules, ServiceKeeps.search_rooms-Keeps Inv repo k)

  pub join_room-Keeps :
      (ctx : Context) (c : Call) (id : String) → Keeps Inv (join_room repo client ctx c id)
  unfolding join_room
  join_room-Keeps ctx c id = search (keeps_rules, ServiceKeeps.join_room-Keeps Inv repo k)

  pub leave_room-Keeps : (ctx : Context) (id : String) → Keeps Inv (leave_room repo client ctx id)
  unfolding leave_room
  leave_room-Keeps ctx id = search (keeps_rules, ServiceKeeps.leave_room-Keeps Inv repo k)

  pub list_room_members-Keeps :
      (ctx : Context) (id : String) → Keeps Inv (list_room_members repo client ctx id)
  unfolding list_room_members
  list_room_members-Keeps ctx id =
      search (keeps_rules, ServiceKeeps.list_room_members-Keeps Inv repo k) depth 9
