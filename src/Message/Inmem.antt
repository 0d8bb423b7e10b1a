-- ===== src/Message/Inmem.antt =====
-- services/chat-service/internal/message/repository_inmem.go. The mutex makes each method atomic.
pub mod History
use go_microservices_chat.Prelude.{
  ℕ, String, Bool, not, ◌&&◌, ◌||◌, List, [], ◌∷◌, ◌++◌, ltb, eqb, take, length, keep, ◌==◌,
  if◌then◌else◌,
}
use go_microservices_chat.Go.Exec.{ok, Exec}
use go_microservices_chat.Go.Int.{ℤ, le_zero, to_nat}
use go_microservices_chat.Go.Sort.{sort_slice}
use go_microservices_chat.Go.Strings.{str_ltb}
use go_microservices_chat.Go.Time.{unix_nano}
use go_microservices_chat.Chat.Errors.{ChatError}
use go_microservices_chat.Message.Types.{Message}
use go_microservices_chat.Message.Cursor.{Cursor, is_zero}
use go_microservices_chat.Message.Repository.{Repository}

pub record InMemRepository : Type 0 where
  pub messages : List Message

abbrev pub new_in_mem_repository : InMemRepository
new_in_mem_repository = record { messages = [] }

unfoldable pub insert : Message → Exec InMemRepository ChatError (Unit {0})
insert m r = (ok tt, record { messages = r.messages ++ m ∷ [] })

unfoldable pub less_than : ℕ → String → ℕ → String → Bool
less_than created_ns id cursor_ns cursor_id =
    if not (eqb created_ns cursor_ns) then ltb created_ns cursor_ns else str_ltb id cursor_id

-- the two guards of the loop
unfoldable pub wanted : String → Cursor → Message → Bool
unfolding less_than is_zero
wanted room_id cursor m =
    m.room_id == room_id
    && (is_zero cursor
        || less_than (unix_nano m.created_at) m.id (unix_nano cursor.created_at) cursor.id)

-- the order of the result
unfoldable pub newer : Message → Message → Bool
newer a b =
    if not (eqb a.created_at b.created_at) then ltb b.created_at a.created_at else str_ltb b.id a.id

-- `limit <= 0` is no limit
unfoldable pub apply_limit : List Message → ℤ → List Message
apply_limit l limit =
    if not (le_zero limit) && ltb (to_nat limit) (length l) then take (to_nat limit) l else l

unfoldable pub list_by_room : String → ℤ → Cursor → Exec InMemRepository ChatError (List Message)
list_by_room room_id limit cursor r =
    (ok (apply_limit (sort_slice newer (keep (wanted room_id cursor) r.messages)) limit), r)

abbrev pub inmem : Repository InMemRepository
inmem = record { insert = insert; list_by_room = list_by_room }
