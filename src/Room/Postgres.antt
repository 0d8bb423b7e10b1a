-- ===== src/Room/Postgres.antt =====
-- services/chat-service/internal/room/repository.go. The statements are those of the source, white space
-- apart. The database reads its own clock where a member joins.
pub mod Tables
pub mod Effects
pub mod Equivalence
pub mod Joined
pub mod Lists
mod Tests
use go_microservices_chat.Prelude.{ℕ, String, Bool, List, [], ◌∷◌}
use go_microservices_chat.Go.Exec.{Result, ok, Exec, convert_err, lift, ◌>>=◌, pure}
use go_microservices_chat.Go.Int.{ℤ, pos}
use go_microservices_chat.Go.Sql.{
  text, time, int, bool, Row, SqlError, Pool, cannot_scan, scan_all, as_is, unique_as, no_rows_as,
  affected_or,
}
use go_microservices_chat.Chat.Errors.{ChatError, room, not_found, already_member, not_member}
use go_microservices_chat.Room.Repository.{Repository}
use go_microservices_chat.Room.Types.{Room, Member}

abbrev pub insert_room : String
insert_room = "INSERT INTO rooms (id, name, created_by, created_at) VALUES ($1, $2, $3, $4)"

abbrev pub select_room : String
select_room = "SELECT id, name, created_by, created_at FROM rooms WHERE id = $1"

abbrev pub select_joined : String
select_joined =
    "SELECT r.id, r.name, r.created_by, r.created_at FROM rooms r JOIN room_members m ON m.room_id = r.id WHERE m.user_id = $1 ORDER BY r.created_at DESC LIMIT $2"

abbrev pub select_matching : String
select_matching =
    "SELECT id, name, created_by, created_at FROM rooms WHERE name ILIKE '%' || $1 || '%' ORDER BY created_at DESC LIMIT $2"

abbrev pub insert_member : String
insert_member = "INSERT INTO room_members (room_id, user_id) VALUES ($1, $2)"

abbrev pub delete_member : String
delete_member = "DELETE FROM room_members WHERE room_id = $1 AND user_id = $2"

abbrev pub select_members : String
select_members =
    "SELECT user_id, joined_at FROM room_members WHERE room_id = $1 ORDER BY joined_at ASC"

abbrev pub select_is_member : String
select_is_member = "SELECT EXISTS(SELECT 1 FROM room_members WHERE room_id = $1 AND user_id = $2)"

abbrev pub select_count : String
select_count = "SELECT COUNT(*) FROM room_members WHERE room_id = $1"

abbrev pub scan_room : Row → Result SqlError Room
scan_room (text id ∷ text name ∷ text created_by ∷ time created_at ∷ []) =
    ok (record { id = id; name = name; created_by = created_by; created_at = created_at })
scan_room r = cannot_scan

abbrev pub scan_member : Row → Result SqlError Member
scan_member (text user_id ∷ time joined_at ∷ []) =
    ok (record { user_id = user_id; joined_at = joined_at })
scan_member r = cannot_scan

abbrev pub scan_bool : Row → Result SqlError Bool
scan_bool (bool b ∷ []) = ok b
scan_bool r = cannot_scan

-- a count is not negative
abbrev pub scan_count : Row → Result SqlError ℕ
scan_count (int (pos n) ∷ []) = ok n
scan_count r = cannot_scan

module _ {S : Type 0} (pool : Pool S) where
  unfoldable pub create_room : Room → Exec S ChatError (Unit {0})
  create_room r =
      convert_err as_is (
        pool.exec insert_room
          (text r.id ∷ text r.name ∷ text r.created_by ∷ time r.created_at ∷ []))
      >>= λ n. pure tt

  unfoldable pub get_room : String → Exec S ChatError Room
  get_room id =
      convert_err (no_rows_as (room not_found))
        (pool.query_row select_room (text id ∷ []) >>= λ r. lift (scan_room r))

  -- with `scanRooms`, for both lists of rooms
  unfoldable pub rooms_of : String → String → ℤ → Exec S ChatError (List Room × String)
  rooms_of sql arg limit =
      convert_err as_is
        (pool.query sql (text arg ∷ int limit ∷ []) >>= λ rows. lift (scan_all scan_room rows))
      >>= λ out. pure (out, "")

  unfoldable pub list_rooms_by_member : String → ℤ → String → Exec S ChatError (List Room × String)
  unfolding rooms_of
  list_rooms_by_member user_id limit cursor = rooms_of select_joined user_id limit

  unfoldable pub search_rooms : String → ℤ → String → Exec S ChatError (List Room × String)
  unfolding rooms_of
  search_rooms query limit cursor = rooms_of select_matching query limit

  unfoldable pub add_member : String → String → Exec S ChatError (Unit {0})
  add_member room_id user_id =
      convert_err (unique_as (room already_member))
        (pool.exec insert_member (text room_id ∷ text user_id ∷ []))
      >>= λ n. pure tt

  unfoldable pub remove_member : String → String → Exec S ChatError (Unit {0})
  unfolding affected_or
  remove_member room_id user_id =
      convert_err as_is (pool.exec delete_member (text room_id ∷ text user_id ∷ [])) >>= λ n.
      affected_or (room not_member) n

  unfoldable pub list_members : String → Exec S ChatError (List Member)
  list_members room_id =
      convert_err as_is
        (pool.query select_members (text room_id ∷ []) >>= λ rows. lift (scan_all scan_member rows))

  unfoldable pub is_member : String → String → Exec S ChatError Bool
  is_member room_id user_id = convert_err as_is (
      pool.query_row select_is_member (text room_id ∷ text user_id ∷ []) >>= λ r.
      lift (scan_bool r))

  unfoldable pub count_members : String → Exec S ChatError ℕ
  count_members room_id =
      convert_err as_is
        (pool.query_row select_count (text room_id ∷ []) >>= λ r. lift (scan_count r))

  abbrev pub postgres : Repository S
  postgres = record {
    create_room = create_room;
    get_room = get_room;
    list_rooms_by_member = list_rooms_by_member;
    search_rooms = search_rooms;
    add_member = λ now room_id user_id. add_member room_id user_id;
    remove_member = remove_member;
    list_members = list_members;
    is_member = is_member;
    count_members = count_members;
  }
