-- ===== src/Room/Postgres/Equivalence.antt =====
-- The Postgres repository of rooms, over tables that behave as the documentation of PostgreSQL says,
-- against the repository in memory.
use Prim.Native.Char.{Char}
use go_microservices_chat.Prelude.{
  String, ◌≡◌, ◌≢◌, refl, sym, ap, ◌∙◌, Bool, Option, none, arith, eq_iff, inl, inr, Option-cases,
}
use go_microservices_chat.Go.Dict.{Dict}
use go_microservices_chat.Go.Dict
use go_microservices_chat.Go.Dict.Laws.{get-put, get-remove, get-empty}
use go_microservices_chat.Go.Exec.{Result, ok, ◌>>=◌}
use go_microservices_chat.Go.Sql.{Pool}
use go_microservices_chat.Go.Time.{Time}
use go_microservices_chat.Chat.Errors.{ChatError}
use go_microservices_chat.Room.Types.{Room}
use go_microservices_chat.Room.Inmem as Memory
use go_microservices_chat.Room.Inmem.{InMemRepository, inmem, members_of}
use go_microservices_chat.Room.Inmem.Invariant.{IsValid}
use go_microservices_chat.Room.Postgres as Postgres
use go_microservices_chat.Room.Postgres.{
  postgres, insert_room, select_room, insert_member, delete_member, select_is_member,
}
use go_microservices_chat.Room.Inmem.Effects.{
  asked, there_put, no_members, memory_add, memory_refuse, memory_remove, memory_nobody,
}
use go_microservices_chat.Room.Postgres.Effects.{pg_create, pg_add, pg_refuse, pg_remove, pg_nobody}
use go_microservices_chat.Room.Postgres.Tables.{
  RoomTables, Operation, creates, finds, adds, removes, asks, told, run, is_there, SameRooms,
}

module _ {S : Type 0} (lower : Char → Char) (pool : Pool S) (row : S → String → Option Room)
    (joined : S → String → String → Bool) (Fits : Room → S → Type 0) (IsUuid : String → Type 0)
    (tables : RoomTables pool row joined Fits IsUuid) where
  -- a new room has a new id, and members join and leave rooms that exist
  abbrev pub Allowed : S → InMemRepository → Operation → Type 0
  Allowed s r (creates room) = Fits room s × (Dict.get r.rooms room.id ≡ none)
  Allowed s r (finds id) = IsUuid id
  Allowed s r (adds now id user) = IsUuid id × IsUuid user × (Dict.get r.rooms id ≢ none)
  Allowed s r (removes id user) = IsUuid id × IsUuid user × (Dict.get r.rooms id ≢ none)
  Allowed s r (asks id user) = IsUuid id × IsUuid user

  abbrev pub AnswersMatch : Operation → S → InMemRepository → Type 0
  AnswersMatch op s r =
      ((run (postgres pool) op s).0 ≡ (run (inmem lower) op r).0)
      × SameRooms row joined (run (postgres pool) op s).1 (run (inmem lower) op r).1

  match_finds :
      (id : String) (s : S) (r : InMemRepository)
      → IsUuid id
      → SameRooms row joined s r
      → AnswersMatch (finds id) s r
  unfolding Postgres.get_room Memory.get_room ◌>>=◌
  match_finds id s r uuid same = elim (Option-cases (Dict.get r.rooms id)) [
    | inl e ↦
        rw (tables.selects id s uuid)
          (rw (same.rooms id ∙ e) (rw (e, Memory.get_room) (refl, same)))
    | inr (room, e) ↦
        rw (tables.selects id s uuid)
          (rw (same.rooms id ∙ e) (rw (e, Memory.get_room) (refl, same)))
  ]

  match_asks :
      (id user : String) (s : S) (r : InMemRepository)
      → IsUuid id
      → IsUuid user
      → SameRooms row joined s r
      → AnswersMatch (asks id user) s r
  unfolding Postgres.is_member ◌>>=◌
  match_asks id user s r uuid uuid' same =
      rw (tables.exists id user s uuid uuid')
        (rw (asked id user r) (ap (λ b. told (ok b)) (same.members id user), same))

  -- what two runs with known ends have to show
  answered_creates :
      (s : S) {s' : S} (r : InMemRepository) {r' : InMemRepository}
      {a : Result ChatError (Unit {0})} (room : Room)
      → Postgres.create_room pool room s ≡ (a, s')
      → Memory.create_room room r ≡ (a, r')
      → SameRooms row joined s' r'
      → AnswersMatch (creates room) s r
  answered_creates s r room p q h = rw p (rw q (refl, h))

  answered_adds :
      (s : S) {s' : S} (r : InMemRepository) {r' : InMemRepository}
      {a : Result ChatError (Unit {0})} (now : Time) (id user : String)
      → Postgres.add_member pool id user s ≡ (a, s')
      → Memory.add_member now id user r ≡ (a, r')
      → SameRooms row joined s' r'
      → AnswersMatch (adds now id user) s r
  answered_adds s r now id user p q h = rw p (rw q (refl, h))

  answered_removes :
      (s : S) {s' : S} (r : InMemRepository) {r' : InMemRepository}
      {a : Result ChatError (Unit {0})} (id user : String)
      → Postgres.remove_member pool id user s ≡ (a, s')
      → Memory.remove_member id user r ≡ (a, r')
      → SameRooms row joined s' r'
      → AnswersMatch (removes id user) s r
  answered_removes s r id user p q h = rw p (rw q (refl, h))

  match_creates :
      (room : Room) (s : S) (r : InMemRepository)
      → IsValid r
      → Fits room s
      → Dict.get r.rooms room.id ≡ none
      → SameRooms row joined s r
      → AnswersMatch (creates room) s r
  unfolding Memory.create_room
  match_creates room s r v fits fresh same =
      let (s', at, rooms', joined') = tables.inserts room s fits (same.rooms room.id ∙ fresh) in
      answered_creates s r room (pg_create pool room s s' at) refl (record {
        rooms = λ id. ground (arith, rooms' id, same.rooms id, get-put r.rooms room.id id room);
        members = λ id w. ground (
          arith,
          joined' id w,
          same.members id w,
          there_put r room.id Dict.empty id w,
          get-empty {V = Time} w,
          no_members r room.id w v fresh,
          eq_iff room.id id,
        );
      })

  module _ (r : InMemRepository) (v : IsValid r) (id user : String)
      (known : Dict.get r.rooms id ≢ none) where
    match_adds :
        (now : Time) (s : S)
        → IsUuid id
        → IsUuid user
        → SameRooms row joined s r
        → AnswersMatch (adds now id user) s r
    match_adds now s uuid uuid' same = elim (Option-cases (Dict.get (members_of r id) user)) [
      | inr (at, f) ↦
          let (msg, g) =
            tables.refuses id user s uuid uuid' (same.members id user ∙ ap is_there f) in
          answered_adds s r now id user (pg_refuse pool id user msg s g)
            (memory_refuse r v id user known now at f) same
      | inl f ↦
          let (s', g, rooms', joined') =
            tables.joins id user s uuid uuid' (λ p. known (sym (same.rooms id) ∙ p))
              (same.members id user ∙ ap is_there f) in
          answered_adds s r now id user (pg_add pool id user s s' g)
            (memory_add r v id user known now f)
            (record {
              rooms = λ j. rooms' j ∙ same.rooms j;
              members = λ j w. ground (
                arith,
                joined' j w,
                same.members j w,
                same.members id w,
                there_put r id (Dict.put (members_of r id) user now) j w,
                get-put (members_of r id) user w now,
                eq_iff id j,
              );
            })
    ]

    match_removes :
        (s : S)
        → IsUuid id
        → IsUuid user
        → SameRooms row joined s r
        → AnswersMatch (removes id user) s r
    match_removes s uuid uuid' same = elim (Option-cases (Dict.get (members_of r id) user)) [
      | inl f ↦
          let g =
            tables.leaves_nobody id user s uuid uuid' (same.members id user ∙ ap is_there f) in
          answered_removes s r id user (pg_nobody pool id user s g)
            (memory_nobody r v id user known f) same
      | inr (at, f) ↦
          let (s', g, rooms', joined') =
            tables.leaves id user s uuid uuid' (same.members id user ∙ ap is_there f) in
          answered_removes s r id user (pg_remove pool id user s s' g)
            (memory_remove r v id user known at f)
            (record {
              rooms = λ j. rooms' j ∙ same.rooms j;
              members = λ j w. ground (
                arith,
                joined' j w,
                same.members j w,
                same.members id w,
                there_put r id (Dict.remove (members_of r id) user) j w,
                get-remove (members_of r id) user w,
                eq_iff id j,
              );
            })
    ]

  -- The Postgres repository implements the one in memory: where both hold the same rooms with the same
  -- members, creating a room, finding one, adding and removing a member and asking for one get the
  -- same answer from both, errors included, and both hold the same rooms and members afterwards. The
  -- ids are UUIDs, a new room has a new id and fits the columns of the table, the room that somebody
  -- joins or leaves exists, and the maps in memory are valid.
  pub room_operation :
      (op : Operation) (s : S) (r : InMemRepository)
      → IsValid r
      → SameRooms row joined s r
      → Allowed s r op
      → ((run (postgres pool) op s).0 ≡ (run (inmem lower) op r).0)
        × SameRooms row joined (run (postgres pool) op s).1 (run (inmem lower) op r).1
  room_operation (creates room) s r v same a = match_creates room s r v a.0 a.1 same
  room_operation (finds id) s r v same a = match_finds id s r a same
  room_operation (adds now id user) s r v same a = match_adds r v id user a.2 now s a.0 a.1 same
  room_operation (removes id user) s r v same a = match_removes r v id user a.2 s a.0 a.1 same
  room_operation (asks id user) s r v same a = match_asks id user s r a.0 a.1 same
