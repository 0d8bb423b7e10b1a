-- ===== src/Message/Postgres.antt =====
-- services/chat-service/internal/message/repository.go. The statements are those of the source, white
-- space apart.
pub mod Equivalence
mod Tests
use go_microservices_chat.Prelude.{String, List, [], ◌∷◌, if◌then◌else◌}
use go_microservices_chat.Go.Exec.{Result, ok, Exec, convert_err, lift, ◌>>=◌, pure}
use go_microservices_chat.Go.Int.{ℤ}
use go_microservices_chat.Go.Sql.{
  text, time, int, Row, SqlError, Pool, cannot_scan, scan_all, as_is,
}
use go_microservices_chat.Chat.Errors.{ChatError}
use go_microservices_chat.Message.Cursor.{Cursor, is_zero}
use go_microservices_chat.Message.Repository.{Repository}
use go_microservices_chat.Message.Types.{Message}

abbrev pub insert_message : String
insert_message =
    "INSERT INTO messages (id, room_id, sender_id, content, created_at) VALUES ($1, $2, $3, $4, $5)"

abbrev pub select_newest : String
select_newest =
    "SELECT id, room_id, sender_id, content, created_at FROM messages WHERE room_id = $1 ORDER BY created_at DESC, id DESC LIMIT $2"

abbrev pub select_before : String
select_before =
    "SELECT id, room_id, sender_id, content, created_at FROM messages WHERE room_id = $1 AND (created_at, id) < ($2, $3) ORDER BY created_at DESC, id DESC LIMIT $4"

abbrev pub scan_message : Row → Result SqlError Message
scan_message (text id ∷ text room_id ∷ text sender_id ∷ text content ∷ time created_at ∷ []) =
    ok (record {
      id = id;
      room_id = room_id;
      sender_id = sender_id;
      content = content;
      created_at = created_at;
    })
scan_message r = cannot_scan

-- the arguments of `Insert`, in the order of the columns
abbrev pub row_of : Message → Row
row_of m = text m.id ∷ text m.room_id ∷ text m.sender_id ∷ text m.content ∷ time m.created_at ∷ []

module _ {S : Type 0} (pool : Pool S) where
  unfoldable pub insert : Message → Exec S ChatError (Unit {0})
  insert m = convert_err as_is (pool.exec insert_message (row_of m)) >>= λ n. pure tt

  unfoldable pub list_by_room : String → ℤ → Cursor → Exec S ChatError (List Message)
  unfolding is_zero
  list_by_room room_id limit cursor = convert_err as_is (
      (if is_zero cursor
        then pool.query select_newest (text room_id ∷ int limit ∷ [])
        else pool.query select_before
            (text room_id ∷ time cursor.created_at ∷ text cursor.id ∷ int limit ∷ []))
      >>= λ rows. lift (scan_all scan_message rows))

  abbrev pub postgres : Repository S
  postgres = record { insert = insert; list_by_room = list_by_room }
