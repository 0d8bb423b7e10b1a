-- ===== src/Room/Service/Members.antt =====
-- Creating, joining and leaving rooms.
use Prim.Native.Char.{Char}
use go_microservices_chat.Prelude.{
  ◌+◌, String, ◌≡◌, refl, sym, ◌∙◌, ◌≢◌, some, arith, eq_iff, eq_refl, inl, inr, Option-cases, ◌⊎◌,
}
use go_microservices_chat.Go.Dict.{Dict}
use go_microservices_chat.Go.Dict
use go_microservices_chat.Go.Dict.Laws.{
  get-put, get-put_self, get-put_ne, get-remove, size-remove, size-put_new, size-empty, get-empty,
}
use go_microservices_chat.Go.Exec.{ok, err, ◌>>=◌}
use go_microservices_chat.Go.Strings.{trim_space}
use go_microservices_chat.Go.Time.{Time}
use go_microservices_chat.Auth.Context.{Context, requester_id}
use go_microservices_chat.Chat.Errors.{room_error, not_member}
use go_microservices_chat.Room.Types.{Room}
use go_microservices_chat.Room.Inmem
use go_microservices_chat.Room.Inmem.{InMemRepository, inmem, members_of, join_map}
use go_microservices_chat.Room.Inmem.Invariant.{IsValid, stored_members, members_of-IsMap}
use go_microservices_chat.Room.Service.{
  Call, new_room, create_room, create_room_as, get_room, join_room, leave_room, ensure_member,
}

-- who is not the pair that a call is about is a member as before
abbrev pub OthersKept : String → String → InMemRepository → InMemRepository → Type 0
OthersKept room_id user_id r r' =
    (j other : String)
    → (j ≢ room_id) ⊎ (other ≢ user_id)
    → Dict.get (members_of r' j) other ≡ Dict.get (members_of r j) other

put_members-OthersKept :
    (room_id user_id : String) (r : InMemRepository) (ms : Dict Time)
    → ((other : String)
        → other ≢ user_id
        → Dict.get ms other ≡ Dict.get (members_of r room_id) other)
    → OthersKept room_id user_id r (record r { members = Dict.put r.members room_id ms })
put_members-OthersKept room_id user_id r ms same j other (inl ne) =
    rw (get-put_ne r.members room_id j ms (λ e. ne (sym e)))
put_members-OthersKept room_id user_id r ms same j other (inr ne) =
    ground (arith, get-put r.members room_id j ms, eq_iff room_id j, same other)

module _ (lower : Char → Char) where
  module _ (ctx : Context) (room_id user_id : String) (room : Room) (r : InMemRepository)
      (v : IsValid r) (me : requester_id ctx ≡ some user_id)
      (exists : Dict.get r.rooms room_id ≡ some room) where
    -- A known caller can join any room that exists. Afterwards the caller is a member, joining again
    -- succeeds and changes nothing, and no other membership and no room has changed.
    pub join_room_idempotent :
        (k k' : Call)
        → (r' : InMemRepository) × (join_room (inmem lower) ctx k room_id r ≡ (ok tt, r'))
          × (ensure_member (inmem lower) room_id user_id r' ≡ (ok tt, r'))
          × (join_room (inmem lower) ctx k' room_id r' ≡ (ok tt, r'))
          × OthersKept room_id user_id r r'
          × (r'.rooms ≡ r.rooms)
    unfolding join_room ensure_member Inmem.get_room Inmem.add_member join_map Inmem.is_member ◌>>=◌
    join_room_idempotent k k' = elim (Option-cases (Dict.get (members_of r room_id) user_id)) [
      | inr (at, f) ↦ (
        r,
        ground arith,
        ground (arith, get-empty {V = Time} user_id),
        ground arith,
        λ j other ne. refl,
        refl,
      )
      | inl f ↦
          let (ms, g) = stored_members r room_id room v exists in
          let new = Dict.put ms user_id k.join_now in
          (
            record r { members = Dict.put r.members room_id new },
            ground arith,
            ground (arith, get-put_self r.members room_id new, get-put_self ms user_id k.join_now),
            ground (arith, get-put_self r.members room_id new, get-put_self ms user_id k.join_now),
            put_members-OthersKept room_id user_id r new
                (λ other ne. rw (g, get-put_ne ms user_id other k.join_now (λ e. ne (sym e)))),
            refl,
          )
    ]

    -- A known caller who is a member can leave. Afterwards the caller is not a member, the room has
    -- one member less, leaving again is refused and changes nothing, and no other membership and
    -- no room has changed.
    pub leave_room_once :
        (at : Time)
        → Dict.get (members_of r room_id) user_id ≡ some at
        → (r' : InMemRepository) × (leave_room (inmem lower) ctx room_id r ≡ (ok tt, r'))
          × (ensure_member (inmem lower) room_id user_id r' ≡ (err (room_error not_member), r'))
          × (leave_room (inmem lower) ctx room_id r' ≡ (err (room_error not_member), r'))
          × (Dict.size (members_of r' room_id) + 1 ≡ Dict.size (members_of r room_id))
          × OthersKept room_id user_id r r'
          × (r'.rooms ≡ r.rooms)
    unfolding leave_room ensure_member Inmem.remove_member Inmem.is_member ◌>>=◌
    leave_room_once at joined =
        let ms = members_of r room_id in
        (
          record r { members = Dict.put r.members room_id (Dict.remove ms user_id) },
          ground arith,
          ground (
            arith,
            get-put_self r.members room_id (Dict.remove ms user_id),
            get-remove ms user_id user_id,
            eq_refl user_id,
          ),
          ground (
            arith,
            get-put_self r.members room_id (Dict.remove ms user_id),
            get-remove ms user_id user_id,
            eq_refl user_id,
          ),
          rw (get-put_self r.members room_id (Dict.remove ms user_id))
              (size-remove ms user_id at (members_of-IsMap r room_id v) joined),
          put_members-OthersKept room_id user_id r (Dict.remove ms user_id)
              (λ other ne. ground (arith, get-remove ms user_id other, eq_iff user_id other)),
          refl,
        )

  -- `CreateRoom` of a known caller, with a name that is not blank, succeeds. The room is
  -- then found with the trimmed name and one member, who is the caller, and every other room and
  -- its members are as before.
  pub get_room-create_room :
      (ctx : Context) (k : Call) (name user_id : String) (r : InMemRepository)
      → requester_id ctx ≡ some user_id
      → trim_space name ≢ ""
      → let made = new_room k (trim_space name) user_id in
        (r' : InMemRepository) × (create_room (inmem lower) ctx k name r ≡ (ok made, r'))
        × (get_room (inmem lower) k.uuid r' ≡ (ok (made, 1), r'))
        × (ensure_member (inmem lower) k.uuid user_id r' ≡ (ok tt, r'))
        × ((j : String)
            → j ≢ k.uuid
            → (Dict.get r'.rooms j ≡ Dict.get r.rooms j)
              × (Dict.get r'.members j ≡ Dict.get r.members j))
  unfolding create_room create_room_as get_room ensure_member Inmem.create_room Inmem.add_member
      join_map Inmem.get_room Inmem.count_members Inmem.is_member ◌>>=◌
  get_room-create_room ctx k name user_id r me named =
      let made = new_room k (trim_space name) user_id in
      let first = Dict.put Dict.empty user_id k.join_now in
      let bare = Dict.put r.members k.uuid Dict.empty in
      (
        record { rooms = Dict.put r.rooms k.uuid made; members = Dict.put bare k.uuid first },
        ground (
          arith,
          eq_iff (trim_space name) "",
          get-put_self r.rooms k.uuid made,
          get-put_self r.members k.uuid (Dict.empty {V = Time}),
          get-empty {V = Time} user_id,
        ),
        ground (
          arith,
          get-put_self r.rooms k.uuid made,
          get-put_self bare k.uuid first,
          size-empty Time,
          size-put_new Dict.empty user_id k.join_now,
          get-empty {V = Time} user_id,
        ),
        ground (
          arith,
          get-put_self bare k.uuid first,
          get-put_self (Dict.empty {V = Time}) user_id k.join_now,
        ),
        λ j ne. (
          get-put_ne r.rooms k.uuid j made (λ e. ne (sym e)),
          get-put_ne bare k.uuid j first (λ e. ne (sym e))
              ∙ get-put_ne r.members k.uuid j Dict.empty (λ e. ne (sym e)),
        ),
      )
