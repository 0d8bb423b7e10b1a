-- ===== src/Room/Tests.antt =====
-- The theorems on the room service at a store with one room.
use go_microservices_chat.Prelude.{
  map, ◌+◌, ◌≤◌, String, ◌≡◌, ◌≢◌, refl, some, List, [], ◌∷◌, arith, eq_iff, All, length,
}
use mathlib.Core.Bool.{false≢true}
use mathlib.Core.List.{Perm}
use go_microservices_chat.Go.Dict.{Dict, IsMap}
use go_microservices_chat.Go.Dict
use go_microservices_chat.Go.Dict.Laws.{get-put, get-empty, put-Holds, put-IsMap, empty-IsMap}
use go_microservices_chat.Go.Exec.{ok, err, ◌>>=◌}
use go_microservices_chat.Go.Int.{pos}
use go_microservices_chat.Go.Sort.{IsSorted, sort_slice}
use go_microservices_chat.Go.Strings.{trim_space}
use go_microservices_chat.Go.Time.{Time}
use go_microservices_chat.Auth.Context.{Context, requester_id}
use go_microservices_chat.Chat.Errors.{room_error, not_member}
use go_microservices_chat.Chat.UserClient.{Profile, Client}
use go_microservices_chat.Room.Grpc
use go_microservices_chat.Room.Grpc.{RoomMember}
use go_microservices_chat.Room.Grpc.Enrichment.{Named, list_room_members-Named}
use go_microservices_chat.Room.Inmem
use go_microservices_chat.Room.Types.{Room, Member}
use go_microservices_chat.Room.Inmem.{
  InMemRepository, inmem, new_in_mem_repository, members_of, member_rows, list_members, earlier,
  newer,
}
use go_microservices_chat.Room.Inmem.Invariant.{IsValid}
use go_microservices_chat.Room.Service.{
  Call, create_room, get_room, join_room, leave_room, ensure_member, list_room_members,
  list_my_rooms, new_room,
}
use go_microservices_chat.Room.Service.Invariant.{Rpc, creates_room, joins, leaves}
use go_microservices_chat.Room.Service.Members.{
  OthersKept, get_room-create_room, join_room_idempotent, leave_room_once,
}
use go_microservices_chat.Room.Service.Listing.{Joined, list_room_members_lem, list_my_rooms_lem}

abbrev pub as_user : String → Context
as_user id = record { incoming = some (λ k. id ∷ []); outgoing = [] }

abbrev pub call : Call
call = record { now = 5; join_now = 6; uuid = "r1" }

abbrev pub lobby : Room
lobby = record { id = "r1"; name = "lobby"; created_by = "u1"; created_at = 5 }

abbrev one_member : Dict Time
one_member = Dict.put Dict.empty "u1" 6

abbrev pub with_lobby : InMemRepository
with_lobby = record {
  rooms = Dict.put Dict.empty "r1" lobby;
  members = Dict.put Dict.empty "r1" one_member;
}

pub as_u1 : requester_id (as_user "u1") ≡ some "u1"
unfolding requester_id
as_u1 = refl

pub as_u2 : requester_id (as_user "u2") ≡ some "u2"
unfolding requester_id
as_u2 = refl

calls : List Rpc
calls =
    creates_room (as_user "u1") call " lobby"
    ∷ joins (as_user "u2") call "r1"
    ∷ leaves (as_user "u1") "r1"
    ∷ []

one_member-IsMap : IsMap one_member
one_member-IsMap = put-IsMap Dict.empty "u1" 6 empty-IsMap

pub with_lobby-IsValid : IsValid with_lobby
with_lobby-IsValid = record {
  rooms_map = put-IsMap Dict.empty "r1" lobby empty-IsMap;
  members_map = put-IsMap Dict.empty "r1" one_member empty-IsMap;
  at_id = λ k w h.
      ground (arith, get-put Dict.empty "r1" k lobby, get-empty {V = Room} k, eq_iff "r1" k);
  has_members = λ k w h. ground (
    arith,
    get-put Dict.empty "r1" k lobby,
    get-empty {V = Room} k,
    get-put Dict.empty "r1" k one_member,
  );
  has_room = λ k ms h. ground (
    arith,
    get-put Dict.empty "r1" k lobby,
    get-empty {V = Dict Time} k,
    get-put Dict.empty "r1" k one_member,
  );
  inner_map =
      put-Holds IsMap Dict.empty "r1" one_member one_member-IsMap
        (λ k ms h. absurd (ground (arith, get-empty {V = Dict Time} k)));
}

lobby_exists : Dict.get with_lobby.rooms "r1" ≡ some lobby
unfolding Dict.get Dict.put Dict.empty
lobby_exists = refl

u1_joined : Dict.get (members_of with_lobby "r1") "u1" ≡ some 6
unfolding Dict.get Dict.put Dict.empty
u1_joined = refl

named : trim_space " lobby" ≢ ""
unfolding trim_space
named e = false≢true ((eq_iff "lobby" "").1 e)

join_room_idempotent_example :
    (r' : InMemRepository) × (join_room (inmem (λ c. c)) (as_user "u2") call "r1" with_lobby
      ≡ (ok tt, r'))
    × (ensure_member (inmem (λ c. c)) "r1" "u2" r' ≡ (ok tt, r'))
    × (join_room (inmem (λ c. c)) (as_user "u2") call "r1" r' ≡ (ok tt, r'))
    × OthersKept "r1" "u2" with_lobby r'
    × (r'.rooms ≡ with_lobby.rooms)
join_room_idempotent_example =
    join_room_idempotent (λ c. c) (as_user "u2") "r1" "u2" lobby with_lobby with_lobby-IsValid as_u2
      lobby_exists call call

leave_room_once_example :
    (r' : InMemRepository) × (leave_room (inmem (λ c. c)) (as_user "u1") "r1" with_lobby
      ≡ (ok tt, r'))
    × (ensure_member (inmem (λ c. c)) "r1" "u1" r' ≡ (err (room_error not_member), r'))
    × (leave_room (inmem (λ c. c)) (as_user "u1") "r1" r' ≡ (err (room_error not_member), r'))
    × (Dict.size (members_of r' "r1") + 1 ≡ Dict.size (members_of with_lobby "r1"))
    × OthersKept "r1" "u1" with_lobby r'
    × (r'.rooms ≡ with_lobby.rooms)
leave_room_once_example =
    leave_room_once (λ c. c) (as_user "u1") "r1" "u1" lobby with_lobby with_lobby-IsValid as_u1
      lobby_exists 6 u1_joined

get_room-create_room_example :
    let made = new_room call (trim_space " lobby") "u1" in
    (r' : InMemRepository) × (create_room
        (inmem (λ c. c))
        (as_user "u1")
        call
        " lobby"
        new_in_mem_repository
      ≡ (ok made, r'))
    × (get_room (inmem (λ c. c)) "r1" r' ≡ (ok (made, 1), r'))
    × (ensure_member (inmem (λ c. c)) "r1" "u1" r' ≡ (ok tt, r'))
    × ((j : String)
        → j ≢ "r1"
        → (Dict.get r'.rooms j ≡ Dict.get new_in_mem_repository.rooms j)
          × (Dict.get r'.members j ≡ Dict.get new_in_mem_repository.members j))
get_room-create_room_example =
    get_room-create_room (λ c. c) (as_user "u1") call " lobby" "u1" new_in_mem_repository as_u1
      named

list_room_members_lem_example :
    (rows : List Member) × (list_room_members (inmem (λ c. c)) "r1" with_lobby
      ≡ (ok rows, with_lobby))
    × Perm rows (member_rows (members_of with_lobby "r1").entries)
    × IsSorted earlier rows
    × (get_room (inmem (λ c. c)) "r1" with_lobby ≡ (ok (lobby, length rows), with_lobby))
list_room_members_lem_example =
    list_room_members_lem (λ c. c) "r1" lobby with_lobby with_lobby-IsValid lobby_exists

list_my_rooms_lem_example :
    (rooms : List Room) × (list_my_rooms (inmem (λ c. c)) (as_user "u1") (pos 0) "" with_lobby
      ≡ (ok (rooms, ""), with_lobby))
    × (length rooms ≤ 200)
    × IsSorted newer rooms
    × All (Joined "u1" with_lobby) rooms
list_my_rooms_lem_example =
    list_my_rooms_lem (λ c. c) (as_user "u1") (pos 0) "" "u1" with_lobby with_lobby-IsValid as_u1

abbrev joined : Member
joined = record { user_id = "u1"; joined_at = 6 }

abbrev alice : Profile
alice = record { id = "u1"; username = "alice"; display_name = "Alice"; avatar_url = "" }

abbrev client : Client
client ctx ids = ok (alice ∷ [])

lobby_members : list_room_members (inmem (λ c. c)) "r1" with_lobby ≡ (ok (joined ∷ []), with_lobby)
unfolding list_room_members Inmem.get_room list_members member_rows sort_slice Dict.get Dict.put
    Dict.empty ◌>>=◌
lobby_members = refl

list_room_members-Named_example :
    (rows : List RoomMember) × (Grpc.list_room_members
        (inmem (λ c. c))
        client
        (as_user "u1")
        "r1"
        with_lobby
      ≡ (ok (rows, ""), with_lobby))
    × (map (λ x. x.user_id) rows ≡ map (λ x. x.user_id) (joined ∷ []))
    × All (Named (alice ∷ [])) rows
list_room_members-Named_example =
    list_room_members-Named (inmem (λ c. c)) client (as_user "u1") "r1" with_lobby with_lobby
      (joined ∷ []) (alice ∷ []) lobby_members refl
