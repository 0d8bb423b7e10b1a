-- ===== src/Room/Service/Keeps.antt =====
-- Whatever every method of a repository keeps, every method of the room service keeps.
use go_microservices_chat.Prelude.{String, Option-cases, inl, inr}
use go_microservices_chat.Go.Exec.Keeps.{Keeps, keeps_rules}
use go_microservices_chat.Go.Int.{ℤ}
use go_microservices_chat.Go.Time.{Time}
use go_microservices_chat.Auth.Context.{Context, requester_id}
use go_microservices_chat.Room.Types.{Room}
use go_microservices_chat.Room.Repository.{Repository}
use go_microservices_chat.Room.Service.{
  Call, create_room, create_room_as, get_room, list_room_members, list_my_rooms, search_rooms,
  join_room, leave_room, ensure_member,
}

pub record RepositoryKeeps {S : Type 0} (Inv : S → Type 0) (repo : Repository S) : Type 0 where
  pub create_room : (room : Room) → Keeps Inv (repo.create_room room)
  pub get_room : (id : String) → Keeps Inv (repo.get_room id)
  pub list_rooms_by_member :
      (user_id : String) (limit : ℤ) (cursor : String)
      → Keeps Inv (repo.list_rooms_by_member user_id limit cursor)
  pub search_rooms :
      (query : String) (limit : ℤ) (cursor : String)
      → Keeps Inv (repo.search_rooms query limit cursor)
  pub add_member :
      (now : Time) (room_id user_id : String) → Keeps Inv (repo.add_member now room_id user_id)
  pub remove_member : (room_id user_id : String) → Keeps Inv (repo.remove_member room_id user_id)
  pub list_members : (room_id : String) → Keeps Inv (repo.list_members room_id)
  pub is_member : (room_id user_id : String) → Keeps Inv (repo.is_member room_id user_id)
  pub count_members : (room_id : String) → Keeps Inv (repo.count_members room_id)

module _ {S : Type 0} (Inv : S → Type 0) (repo : Repository S) (k : RepositoryKeeps Inv repo) where
  pub create_room-Keeps :
      (ctx : Context) (c : Call) (name : String) → Keeps Inv (create_room repo ctx c name)
  unfolding create_room create_room_as
  create_room-Keeps ctx c name = elim (Option-cases (requester_id ctx)) [
    | inl e ↦ rw (e, create_room) (search keeps_rules)
    | inr (id, e) ↦ rw (e, create_room) (search (keeps_rules, k.create_room, k.add_member) depth 9)
  ]

  pub list_my_rooms-Keeps :
      (ctx : Context) (limit : ℤ) (cursor : String)
      → Keeps Inv (list_my_rooms repo ctx limit cursor)
  unfolding list_my_rooms
  list_my_rooms-Keeps ctx limit cursor = elim (Option-cases (requester_id ctx)) [
    | inl e ↦ rw (e, list_my_rooms) (search keeps_rules)
    | inr (id, e) ↦ rw (e, list_my_rooms) (search (keeps_rules, k.list_rooms_by_member))
  ]

  pub join_room-Keeps :
      (ctx : Context) (c : Call) (id : String) → Keeps Inv (join_room repo ctx c id)
  unfolding join_room
  join_room-Keeps ctx c id = elim (Option-cases (requester_id ctx)) [
    | inl e ↦ rw (e, join_room) (search keeps_rules)
    | inr (user, e) ↦ rw (e, join_room) (search (keeps_rules, k.get_room, k.add_member) depth 9)
  ]

  pub leave_room-Keeps : (ctx : Context) (id : String) → Keeps Inv (leave_room repo ctx id)
  unfolding leave_room
  leave_room-Keeps ctx id = elim (Option-cases (requester_id ctx)) [
    | inl e ↦ rw (e, leave_room) (search keeps_rules)
    | inr (user, e) ↦ rw (e, leave_room) (search (keeps_rules, k.remove_member))
  ]

  pub get_room-Keeps : (id : String) → Keeps Inv (get_room repo id)
  unfolding get_room
  get_room-Keeps id = search (keeps_rules, k.get_room, k.count_members) depth 9

  pub list_room_members-Keeps : (id : String) → Keeps Inv (list_room_members repo id)
  unfolding list_room_members
  list_room_members-Keeps id = search (keeps_rules, k.get_room, k.list_members) depth 9

  pub ensure_member-Keeps : (id user_id : String) → Keeps Inv (ensure_member repo id user_id)
  unfolding ensure_member
  ensure_member-Keeps id user_id = search (keeps_rules, k.is_member) depth 9

  pub search_rooms-Keeps :
      (query : String) (limit : ℤ) (cursor : String)
      → Keeps Inv (search_rooms repo query limit cursor)
  unfolding search_rooms
  search_rooms-Keeps query limit cursor = search (keeps_rules, k.search_rooms)
