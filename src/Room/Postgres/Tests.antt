-- ===== src/Room/Postgres/Tests.antt =====
-- The theorem on Postgres over tables that are functions.
use go_microservices_chat.Prelude.{
  ℕ, String, ◌≡◌, ◌≢◌, refl, ap, Bool, true, false, ◌&&◌, Option, none, some, List, [], ◌∷◌, ◌==◌,
  if◌then◌else◌,
}
use go_microservices_chat.Go.Dict
use go_microservices_chat.Go.Dict.Laws.{get-empty}
use go_microservices_chat.Go.Exec.{Result, ok, err}
use go_microservices_chat.Go.Sql.{
  Value, text, time, bool, SqlError, coded, other, Row, Pool, unique_violation,
}
use go_microservices_chat.Room.Types.{Room}
use go_microservices_chat.Room.Inmem.{new_in_mem_repository, inmem}
use go_microservices_chat.Room.Inmem.Invariant.{IsValid-new_in_mem_repository}
use go_microservices_chat.Room.Postgres.{postgres, insert_room, insert_member}
use go_microservices_chat.Room.Postgres.Equivalence.{room_operation}
use go_microservices_chat.Room.Postgres.Tables.{RoomTables, found_row, creates, run, SameRooms}

-- the rows of `rooms` and the pairs of `room_members`
pub record Tables : Type 0 where
  pub row : String → Option Room
  pub joined : String → String → Bool

abbrev row_set : Tables → String → Room → Tables
row_set s id room = record s { row = λ j. if id == j then some room else s.row j }

abbrev pair_set : Tables → String → String → Bool → Tables
pair_set s id user b = record s { joined = λ j v. if id == j && user == v then b else s.joined j v }

abbrev inserted : Tables → Room → Option Room → Result SqlError ℕ × Tables
inserted s room none = (ok 1, row_set s room.id room)
inserted s room (some old) = (err (coded unique_violation "duplicate key"), s)

abbrev insert_rows : List Value → Tables → Result SqlError ℕ × Tables
insert_rows (text id ∷ text name ∷ text created_by ∷ time created_at ∷ []) s =
    inserted s (record { id = id; name = name; created_by = created_by; created_at = created_at })
      (s.row id)
insert_rows args s = (err (other "bad arguments"), s)

abbrev paired : Tables → String → String → Option Room → Bool → Result SqlError ℕ × Tables
paired s id user room true = (err (coded unique_violation "duplicate key"), s)
paired s id user none false = (err (coded "23503" "no such room"), s)
paired s id user (some room) false = (ok 1, pair_set s id user true)

abbrev insert_pair : List Value → Tables → Result SqlError ℕ × Tables
insert_pair (text id ∷ text user ∷ []) s = paired s id user (s.row id) (s.joined id user)
insert_pair args s = (err (other "bad arguments"), s)

abbrev unpaired : Tables → String → String → Bool → Result SqlError ℕ × Tables
unpaired s id user true = (ok 1, pair_set s id user false)
unpaired s id user false = (ok 0, s)

abbrev delete_pair : List Value → Tables → Result SqlError ℕ × Tables
delete_pair (text id ∷ text user ∷ []) s = unpaired s id user (s.joined id user)
delete_pair args s = (err (other "bad arguments"), s)

abbrev selected : List Value → Tables → Result SqlError Row
selected (text id ∷ []) s = found_row (s.row id)
selected (text id ∷ text user ∷ []) s = ok (bool (s.joined id user) ∷ [])
selected args s = err (other "bad arguments")

abbrev function_pool : Pool Tables
function_pool = record {
  exec = λ sql args s.
      if sql == insert_room
      then insert_rows args s
      else if sql == insert_member
      then insert_pair args s
      else delete_pair args s;
  query = λ sql args s. (err (other "not used"), s);
  query_row = λ sql args s. (selected args s, s);
}

abbrev row : Tables → String → Option Room
row s id = s.row id

abbrev joined : Tables → String → String → Bool
joined s id user = s.joined id user

pair_added :
    (s : Tables) (id user : String) (room : Option Room) (b : Bool)
    → room ≢ none
    → b ≡ false
    → paired s id user room b ≡ (ok 1, pair_set s id user true)
pair_added s id user none b h e = absurd (h refl)
pair_added s id user (some room) b h e = ap (paired s id user (some room)) e

function_tables : RoomTables function_pool row joined (λ room s. Unit) (λ id. Unit)
function_tables = record {
  inserts = λ room s fits fresh.
      (row_set s room.id room, ap (inserted s room) fresh, λ id. refl, λ id user. refl);
  selects = λ id s uuid. refl;
  joins = λ id user s uuid uuid' known out. (
    pair_set s id user true,
    pair_added s id user (s.row id) (s.joined id user) known out,
    λ j. refl,
    λ j v. refl,
  );
  refuses = λ id user s uuid uuid' e. ("duplicate key", ap (paired s id user (s.row id)) e);
  leaves = λ id user s uuid uuid' e.
      (pair_set s id user false, ap (unpaired s id user) e, λ j. refl, λ j v. refl);
  leaves_nobody = λ id user s uuid uuid' e. ap (unpaired s id user) e;
  exists = λ id user s uuid uuid'. refl;
}

abbrev lobby : Room
lobby = record { id = "r1"; name = "lobby"; created_by = "u1"; created_at = 5 }

abbrev nothing : Tables
nothing = record { row = λ id. none; joined = λ id user. false }

nothing-SameRooms : SameRooms row joined nothing new_in_mem_repository
unfolding Dict.get Dict.empty
nothing-SameRooms = record { rooms = λ id. refl; members = λ id user. refl }

room_operation_example :
    ((run (postgres function_pool) (creates lobby) nothing).0
      ≡ (run (inmem (λ c. c)) (creates lobby) new_in_mem_repository).0)
    × SameRooms row joined
        (run (postgres function_pool) (creates lobby) nothing).1
        (run (inmem (λ c. c)) (creates lobby) new_in_mem_repository).1
room_operation_example =
    room_operation (λ c. c) function_pool row joined (λ room s. Unit) (λ id. Unit) function_tables
      (creates lobby) nothing new_in_mem_repository IsValid-new_in_mem_repository nothing-SameRooms
      (tt, get-empty "r1")
