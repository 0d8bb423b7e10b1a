-- ===== src/Room/Inmem/Invariant.antt =====
-- Every room has its map of members and no other map exists, so that no method writes to a nil map.
use Prim.Native.Char.{Char}
use go_microservices_chat.Prelude.{
  String, ◌≡◌, ◌≢◌, none, some, arith, eq_iff, inl, inr, Option-cases,
}
use go_microservices_chat.Go.Dict.{Dict, IsMap}
use go_microservices_chat.Go.Dict
use go_microservices_chat.Go.Dict.Laws.{
  get-put, put-Holds, get-empty, put-IsMap, remove-IsMap, empty-IsMap,
}
use go_microservices_chat.Go.Exec.Keeps.{Keeps}
use go_microservices_chat.Go.Int.{ℤ}
use go_microservices_chat.Go.Time.{Time}
use go_microservices_chat.Room.Types.{Room}
use go_microservices_chat.Room.Inmem.{
  InMemRepository, new_in_mem_repository, members_of, create_room, get_room, list_rooms_by_member,
  search_rooms, add_member, join_map, remove_member, list_members, is_member, count_members,
}

pub record IsValid (r : InMemRepository) : Type 0 where
  pub rooms_map : IsMap r.rooms
  pub members_map : IsMap r.members
  pub at_id : (k : String) (room : Room) → Dict.get r.rooms k ≡ some room → room.id ≡ k
  pub has_members :
      (k : String) (room : Room) → Dict.get r.rooms k ≡ some room → Dict.get r.members k ≢ none
  pub has_room :
      (k : String) (ms : Dict Time) → Dict.get r.members k ≡ some ms → Dict.get r.rooms k ≢ none
  pub inner_map : (k : String) (ms : Dict Time) → Dict.get r.members k ≡ some ms → IsMap ms

pub IsValid-new_in_mem_repository : IsValid new_in_mem_repository
IsValid-new_in_mem_repository = record {
  rooms_map = empty-IsMap;
  members_map = empty-IsMap;
  at_id = λ k room h. ground (arith, get-empty {V = Room} k);
  has_members = λ k room h. ground (arith, get-empty {V = Room} k);
  has_room = λ k ms h. ground (arith, get-empty {V = Dict Time} k);
  inner_map = λ k ms h. absurd (ground (arith, get-empty {V = Dict Time} k));
}

pub create_room-IsValid : (room : Room) → Keeps IsValid (create_room room)
unfolding create_room
create_room-IsValid room = record {
  at = λ r v. record {
    rooms_map = put-IsMap r.rooms room.id room v.rooms_map;
    members_map = put-IsMap r.members room.id Dict.empty v.members_map;
    at_id = λ k w h. ground (arith, get-put r.rooms room.id k room, eq_iff room.id k, v.at_id k w);
    has_members = λ k w h. ground (
      arith,
      get-put r.rooms room.id k room,
      get-put r.members room.id k Dict.empty,
      v.has_members k w,
    );
    has_room = λ k ms h. ground (
      arith,
      get-put r.rooms room.id k room,
      get-put r.members room.id k Dict.empty,
      v.has_room k ms,
    );
    inner_map = put-Holds IsMap r.members room.id Dict.empty empty-IsMap v.inner_map;
  };
}

-- replacing the members of a room that has some
members_put-IsValid :
    (r : InMemRepository) (id : String) (old new : Dict Time)
    → Dict.get r.members id ≡ some old
    → IsMap new
    → IsValid r
    → IsValid (record r { members = Dict.put r.members id new })
members_put-IsValid r id old new e m v = record {
  rooms_map = v.rooms_map;
  members_map = put-IsMap r.members id new v.members_map;
  at_id = v.at_id;
  has_members = λ k w h. ground (arith, get-put r.members id k new, v.has_members k w);
  has_room = λ k ms h.
      ground (arith, get-put r.members id k new, eq_iff id k, v.has_room k ms, v.has_room id old);
  inner_map = put-Holds IsMap r.members id new m v.inner_map;
}

pub join_map-IsValid :
    (now : Time) (room_id user_id : String) → Keeps IsValid (join_map now room_id user_id)
unfolding join_map
join_map-IsValid now room_id user_id = record {
  at = λ r v. elim (Option-cases (Dict.get r.members room_id)) [
    | inl e ↦ rw (e, join_map) v
    | inr (ms, e) ↦
        rw (e, join_map)
          (members_put-IsValid r room_id ms (Dict.put ms user_id now) e
            (put-IsMap ms user_id now (v.inner_map room_id ms e)) v)
  ];
}

pub add_member-IsValid :
    (now : Time) (room_id user_id : String) → Keeps IsValid (add_member now room_id user_id)
unfolding add_member
add_member-IsValid now room_id user_id = record {
  at = λ r v. elim (Option-cases (Dict.get r.rooms room_id)) [
    | inl e ↦ rw (e, add_member) v
    | inr (w, e) ↦ elim (Option-cases (Dict.get (members_of r room_id) user_id)) [
      | inl f ↦
          rw (e, add_member) (rw (f, add_member) ((join_map-IsValid now room_id user_id).at r v))
      | inr (at, f) ↦ rw (e, add_member) (rw (f, add_member) v)
    ]
  ];
}

-- a room that exists has a map of members
pub stored_members :
    (r : InMemRepository) (id : String) (room : Room)
    → IsValid r
    → Dict.get r.rooms id ≡ some room
    → (ms : Dict Time) × (Dict.get r.members id ≡ some ms)
stored_members r id room v h = elim (Option-cases (Dict.get r.members id)) [
  | inl e ↦ absurd (v.has_members id room h e)
  | inr found ↦ found
]

pub members_of-IsMap : (r : InMemRepository) (id : String) → IsValid r → IsMap (members_of r id)
members_of-IsMap r id v = elim (Option-cases (Dict.get r.members id)) [
  | inl e ↦ rw e empty-IsMap
  | inr (ms, e) ↦ rw e (v.inner_map id ms e)
]

pub remove_member-IsValid :
    (room_id user_id : String) → Keeps IsValid (remove_member room_id user_id)
unfolding remove_member
remove_member-IsValid room_id user_id = record {
  at = λ r v. elim (Option-cases (Dict.get r.rooms room_id)) [
    | inl e ↦ rw (e, remove_member) v
    | inr (w, e) ↦ elim (Option-cases (Dict.get (members_of r room_id) user_id)) [
      | inl f ↦ rw (e, remove_member) (rw (f, remove_member) v)
      | inr (at, f) ↦
          let (ms, g) = stored_members r room_id w v e in
          rw (e, remove_member)
            (rw (f, remove_member)
              (members_put-IsValid r room_id ms (Dict.remove (members_of r room_id) user_id) g
                (remove-IsMap (members_of r room_id) user_id (members_of-IsMap r room_id v)) v))
    ]
  ];
}

pub get_room-IsValid : (id : String) → Keeps IsValid (get_room id)
unfolding get_room
get_room-IsValid id = record {
  at = λ r v. elim (Option-cases (Dict.get r.rooms id)) [
    | inl e ↦ rw (e, get_room) v
    | inr (w, e) ↦ rw (e, get_room) v
  ];
}

pub list_members-IsValid : (room_id : String) → Keeps IsValid (list_members room_id)
unfolding list_members
list_members-IsValid room_id = record {
  at = λ r v. elim (Option-cases (Dict.get r.members room_id)) [
    | inl e ↦ rw (e, list_members) v
    | inr (w, e) ↦ rw (e, list_members) v
  ];
}

pub is_member-IsValid : (room_id user_id : String) → Keeps IsValid (is_member room_id user_id)
unfolding is_member
is_member-IsValid room_id user_id = record {
  at = λ r v. elim (Option-cases (Dict.get r.members room_id)) [
    | inl e ↦ rw (e, is_member) v
    | inr (w, e) ↦ elim (Option-cases (Dict.get w user_id)) [
      | inl f ↦ rw (e, is_member) (rw (f, is_member) v)
      | inr (x, f) ↦ rw (e, is_member) (rw (f, is_member) v)
    ]
  ];
}

pub count_members-IsValid : (room_id : String) → Keeps IsValid (count_members room_id)
unfolding count_members
count_members-IsValid room_id = record { at = λ r v. v }

pub list_rooms_by_member-IsValid :
    (user_id : String) (limit : ℤ) (cursor : String)
    → Keeps IsValid (list_rooms_by_member user_id limit cursor)
unfolding list_rooms_by_member
list_rooms_by_member-IsValid user_id limit cursor = record { at = λ r v. v }

pub search_rooms-IsValid :
    (lower : Char → Char) (query : String) (limit : ℤ) (cursor : String)
    → Keeps IsValid (search_rooms lower query limit cursor)
unfolding search_rooms
search_rooms-IsValid lower query limit cursor = record { at = λ r v. v }
