-- ===== src/Room/Inmem/Existing.antt =====
-- No method removes a room.
use Prim.Native.Char.{Char}
use go_microservices_chat.Prelude.{String, ◌≡◌, ◌≢◌, none, arith}
use go_microservices_chat.Go.Dict
use go_microservices_chat.Go.Dict.Laws.{get-put}
use go_microservices_chat.Go.Exec.Keeps.{Keeps}
use go_microservices_chat.Go.Time.{Time}
use go_microservices_chat.Room.Types.{Room}
use go_microservices_chat.Room.Inmem.{
  InMemRepository, inmem, create_room, get_room, list_rooms_by_member, search_rooms, add_member,
  join_map, remove_member, list_members, is_member, count_members,
}
use go_microservices_chat.Room.Service.Keeps.{RepositoryKeeps}

abbrev pub Existing : String → InMemRepository → Type 0
Existing id r = Dict.get r.rooms id ≢ none

module _ (id : String) where
  create_room-Existing : (room : Room) → Keeps (Existing id) (create_room room)
  unfolding create_room
  create_room-Existing room = record {
    at = λ r h e. ground (arith, get-put r.rooms room.id id room);
  }

  -- only `create_room` writes the rooms
  same_rooms : (room_id : String) (r : InMemRepository) → ((get_room room_id r).1.rooms ≡ r.rooms)
  unfolding get_room
  same_rooms room_id r = ground arith

  add_member-rooms :
      (now : Time) (room_id user_id : String) (r : InMemRepository)
      → (add_member now room_id user_id r).1.rooms ≡ r.rooms
  unfolding add_member join_map
  add_member-rooms now room_id user_id r = ground arith

  remove_member-rooms :
      (room_id user_id : String) (r : InMemRepository)
      → (remove_member room_id user_id r).1.rooms ≡ r.rooms
  unfolding remove_member
  remove_member-rooms room_id user_id r = ground arith

  list_members-rooms :
      (room_id : String) (r : InMemRepository) → (list_members room_id r).1.rooms ≡ r.rooms
  unfolding list_members
  list_members-rooms room_id r = ground arith

  is_member-rooms :
      (room_id user_id : String) (r : InMemRepository)
      → (is_member room_id user_id r).1.rooms ≡ r.rooms
  unfolding is_member
  is_member-rooms room_id user_id r = ground arith

  pub inmem-Existing : (lower : Char → Char) → RepositoryKeeps (Existing id) (inmem lower)
  unfolding list_rooms_by_member search_rooms count_members
  inmem-Existing lower = record {
    create_room = create_room-Existing;
    get_room = λ room_id. record { at = λ r h. rw (same_rooms room_id r) h };
    list_rooms_by_member = λ user_id limit cursor. record { at = λ r h. h };
    search_rooms = λ query limit cursor. record { at = λ r h. h };
    add_member =
        λ now room_id user_id. record { at = λ r h. rw (add_member-rooms now room_id user_id r) h };
    remove_member =
        λ room_id user_id. record { at = λ r h. rw (remove_member-rooms room_id user_id r) h };
    list_members = λ room_id. record { at = λ r h. rw (list_members-rooms room_id r) h };
    is_member = λ room_id user_id. record { at = λ r h. rw (is_member-rooms room_id user_id r) h };
    count_members = λ room_id. record { at = λ r h. h };
  }
