-- ===== src/Room/Inmem.antt =====
-- services/chat-service/internal/room/repository_inmem.go. The mutex makes each method atomic.
pub mod Invariant
pub mod Existing
pub mod Effects
use Prim.Native.Char.{Char}
use go_microservices_chat.Prelude.{
  ℕ, String, Bool, true, false, ◌||◌, Option, none, some, List, [], ◌∷◌, ltb, leb, take, length,
  if◌then◌else◌,
}
use go_microservices_chat.Go.Dict.{Dict}
use go_microservices_chat.Go.Dict
use go_microservices_chat.Go.Exec.{ok, err, panic, Exec}
use go_microservices_chat.Go.Int.{ℤ, le_zero, to_nat}
use go_microservices_chat.Go.Sort.{sort_slice}
use go_microservices_chat.Go.Strings.{to_lower, contained}
use go_microservices_chat.Go.Time.{Time}
use go_microservices_chat.Chat.Errors.{ChatError, room_error, not_found, already_member, not_member}
use go_microservices_chat.Room.Types.{Room, Member, zero_room}
use go_microservices_chat.Room.Repository.{Repository}

pub record InMemRepository : Type 0 where
  pub rooms : Dict Room
  pub members : Dict (Dict Time)

abbrev pub new_in_mem_repository : InMemRepository
new_in_mem_repository = record { rooms = Dict.empty; members = Dict.empty }

abbrev Method : Type 0 → Type 0
Method A = Exec InMemRepository ChatError A

-- reading a missing entry of a `map[string]map[...]` gives a nil map, which reads as empty
abbrev pub or_nil : Option (Dict Time) → Dict Time
or_nil none = Dict.empty
or_nil (some ms) = ms

abbrev pub members_of : InMemRepository → String → Dict Time
members_of r room_id = or_nil (Dict.get r.members room_id)

unfoldable pub create_room : Room → Method (Unit {0})
create_room room r = (
  ok tt,
  record { rooms = Dict.put r.rooms room.id room; members = Dict.put r.members room.id Dict.empty },
)

unfoldable pub get_room : String → Method Room
get_room id r = elim (Dict.get r.rooms id) [
  | none ↦ (err (room_error not_found), r)
  | some room ↦ (ok room, r)
]

-- `out[i].CreatedAt.After(out[j].CreatedAt)`
abbrev pub newer : Room → Room → Bool
newer a b = ltb b.created_at a.created_at

-- `limit <= 0` is no limit
unfoldable pub apply_limit : List Room → ℤ → List Room
apply_limit rooms limit =
    if le_zero limit || leb (length rooms) (to_nat limit) then rooms else take (to_nat limit) rooms

abbrev or_zero : Option Room → Room
or_zero none = zero_room
or_zero (some room) = room

-- the loop of `ListRoomsByMember`
unfoldable pub joined_rooms : Dict Room → String → List (String × Dict Time) → List Room
joined_rooms rooms user_id [] = []
joined_rooms rooms user_id ((room_id, ms) ∷ rest) =
    let out = joined_rooms rooms user_id rest in
    elim (Dict.get ms user_id) [ none ↦ out | some at ↦ or_zero (Dict.get rooms room_id) ∷ out ]

unfoldable pub list_rooms_by_member : String → ℤ → String → Method (List Room × String)
list_rooms_by_member user_id limit cursor r = (
  ok (apply_limit (sort_slice newer (joined_rooms r.rooms user_id r.members.entries)) limit, ""),
  r,
)

-- the loop of `SearchRooms`
unfoldable pub matching_rooms : (Char → Char) → String → List (String × Room) → List Room
matching_rooms lower query [] = []
matching_rooms lower query ((id, room) ∷ rest) =
    let out = matching_rooms lower query rest in
    if contained query (to_lower lower room.name) then room ∷ out else out

unfoldable pub search_rooms : (Char → Char) → String → ℤ → String → Method (List Room × String)
search_rooms lower query limit cursor r = (
  ok (
    apply_limit (sort_slice newer (matching_rooms lower (to_lower lower query) r.rooms.entries))
        limit,
    "",
  ),
  r,
)

-- writing to a nil map panics
unfoldable pub join_map : Time → String → String → Method (Unit {0})
join_map now room_id user_id r = elim (Dict.get r.members room_id) [
  | none ↦ (panic, r)
  | some ms ↦ (ok tt, record r { members = Dict.put r.members room_id (Dict.put ms user_id now) })
]

unfoldable pub add_member : Time → String → String → Method (Unit {0})
unfolding join_map
add_member now room_id user_id r = elim (Dict.get r.rooms room_id) [
  | none ↦ (err (room_error not_found), r)
  | some room ↦ elim (Dict.get (members_of r room_id) user_id) [
    | some at ↦ (err (room_error already_member), r)
    | none ↦ join_map now room_id user_id r
  ]
]

unfoldable pub remove_member : String → String → Method (Unit {0})
remove_member room_id user_id r = elim (Dict.get r.rooms room_id) [
  | none ↦ (err (room_error not_found), r)
  | some room ↦ elim (Dict.get (members_of r room_id) user_id) [
    | none ↦ (err (room_error not_member), r)
    | some at ↦ (
      ok tt,
      record r {
        members = Dict.put r.members room_id (Dict.remove (members_of r room_id) user_id);
      },
    )
  ]
]

-- the loop of `ListMembers`
unfoldable pub member_rows : List (String × Time) → List Member
member_rows [] = []
member_rows ((uid, joined) ∷ rest) = record { user_id = uid; joined_at = joined } ∷ member_rows rest

-- `out[i].JoinedAt.Before(out[j].JoinedAt)`
abbrev pub earlier : Member → Member → Bool
earlier a b = ltb a.joined_at b.joined_at

unfoldable pub list_members : String → Method (List Member)
list_members room_id r = elim (Dict.get r.members room_id) [
  | none ↦ (err (room_error not_found), r)
  | some ms ↦ (ok (sort_slice earlier (member_rows ms.entries)), r)
]

unfoldable pub is_member : String → String → Method Bool
is_member room_id user_id r = elim (Dict.get r.members room_id) [
  | none ↦ (ok false, r)
  | some ms ↦ elim (Dict.get ms user_id) [ none ↦ (ok false, r) | some at ↦ (ok true, r) ]
]

unfoldable pub count_members : String → Method ℕ
count_members room_id r = (ok (Dict.size (members_of r room_id)), r)

abbrev pub inmem : (Char → Char) → Repository InMemRepository
inmem lower = record {
  create_room = create_room;
  get_room = get_room;
  list_rooms_by_member = list_rooms_by_member;
  search_rooms = search_rooms lower;
  add_member = add_member;
  remove_member = remove_member;
  list_members = list_members;
  is_member = is_member;
  count_members = count_members;
}
