-- ===== src/Room/Postgres/Tables.antt =====
-- What is assumed of the tables of rooms and members, and the calls that are compared: the Postgres
-- repository of services/chat-service/internal/room/repository.go beside the one in memory.
use go_microservices_chat.Prelude.{
  String, ◌≡◌, ◌≢◌, Bool, true, false, ◌&&◌, Option, none, some, [], ◌∷◌, ◌==◌, if◌then◌else◌,
}
use go_microservices_chat.Go.Dict.{Dict}
use go_microservices_chat.Go.Dict
use go_microservices_chat.Go.Exec.{Result, ok, err}
use go_microservices_chat.Go.Sql.{
  SqlError, coded, no_rows, text, time, bool, Row, Pool, unique_violation,
}
use go_microservices_chat.Go.Time.{Time}
use go_microservices_chat.Chat.Errors.{ChatError}
use go_microservices_chat.Room.Types.{Room}
use go_microservices_chat.Room.Inmem.{InMemRepository, members_of}
use go_microservices_chat.Room.Postgres.{
  insert_room, select_room, insert_member, delete_member, select_is_member,
}
use go_microservices_chat.Room.Repository.{Repository}

-- the columns of a room
abbrev pub room_row : Room → Row
room_row r = text r.id ∷ text r.name ∷ text r.created_by ∷ time r.created_at ∷ []

abbrev pub found_row : Option Room → Result SqlError Row
found_row none = err (no_rows "no rows in result set")
found_row (some r) = ok (room_row r)

-- The tables `rooms` and `room_members` of a database, as the row under each primary key and as the
-- pairs of a room and a user. `Fits` says of a room and a database that the columns hold the row
-- exactly, `IsUuid` that a text is a UUID as PostgreSQL prints it; other texts are errors there.
pub record RoomTables {S : Type 0} (pool : Pool S) (row : S → String → Option Room)
    (joined : S → String → String → Bool) (Fits : Room → S → Type 0) (IsUuid : String → Type 0)
    : Type 0 where
  pub inserts :
      (room : Room) (s : S)
      → Fits room s
      → row s room.id ≡ none
      → (s' : S) × (pool.exec insert_room (room_row room) s ≡ (ok 1, s'))
        × ((id : String) → row s' id ≡ (if room.id == id then some room else row s id))
        × ((id user : String) → joined s' id user ≡ joined s id user)
  pub selects :
      (id : String) (s : S)
      → IsUuid id
      → pool.query_row select_room (text id ∷ []) s ≡ (found_row (row s id), s)
  pub joins :
      (id user : String) (s : S)
      → IsUuid id
      → IsUuid user
      → row s id ≢ none
      → joined s id user ≡ false
      → (s' : S) × (pool.exec insert_member (text id ∷ text user ∷ []) s ≡ (ok 1, s'))
        × ((j : String) → row s' j ≡ row s j)
        × ((j v : String) → joined s' j v ≡ (if id == j && user == v then true else joined s j v))
  pub refuses :
      (id user : String) (s : S)
      → IsUuid id
      → IsUuid user
      → joined s id user ≡ true
      → (msg : String) × (pool.exec insert_member (text id ∷ text user ∷ []) s
          ≡ (err (coded unique_violation msg), s))
  pub leaves :
      (id user : String) (s : S)
      → IsUuid id
      → IsUuid user
      → joined s id user ≡ true
      → (s' : S) × (pool.exec delete_member (text id ∷ text user ∷ []) s ≡ (ok 1, s'))
        × ((j : String) → row s' j ≡ row s j)
        × ((j v : String) → joined s' j v ≡ (if id == j && user == v then false else joined s j v))
  pub leaves_nobody :
      (id user : String) (s : S)
      → IsUuid id
      → IsUuid user
      → joined s id user ≡ false
      → pool.exec delete_member (text id ∷ text user ∷ []) s ≡ (ok 0, s)
  pub exists :
      (id user : String) (s : S)
      → IsUuid id
      → IsUuid user
      → pool.query_row select_is_member (text id ∷ text user ∷ []) s
        ≡ (ok (bool (joined s id user) ∷ []), s)

-- the calls on a room and on who is in it
pub data Operation : Type 0 where
  creates : Room → Operation
  finds : String → Operation
  adds : Time → String → String → Operation
  removes : String → String → Operation
  asks : String → String → Operation

pub data Answer : Type 0 where
  done : Result ChatError (Unit {0}) → Answer
  found : Result ChatError Room → Answer
  told : Result ChatError Bool → Answer

abbrev pub run : {S : Type 0} → Repository S → Operation → S → Answer × S
run repo (creates room) s = let (a, s') = repo.create_room room s in (done a, s')
run repo (finds id) s = let (a, s') = repo.get_room id s in (found a, s')
run repo (adds now id user) s = let (a, s') = repo.add_member now id user s in (done a, s')
run repo (removes id user) s = let (a, s') = repo.remove_member id user s in (done a, s')
run repo (asks id user) s = let (a, s') = repo.is_member id user s in (told a, s')

abbrev pub is_there : Option Time → Bool
is_there none = false
is_there (some at) = true

-- the same rooms, and the same users in each
pub record SameRooms {S : Type 0} (row : S → String → Option Room)
    (joined : S → String → String → Bool) (s : S) (r : InMemRepository) : Type 0 where
  pub rooms : (id : String) → row s id ≡ Dict.get r.rooms id
  pub members : (id user : String) → joined s id user ≡ is_there (Dict.get (members_of r id) user)
