-- ===== src/Room/Repository.antt =====
-- The interface `Repository` of services/chat-service/internal/room/repository.go, over the state `S`
-- of an implementation. `add_member` is given the time that the implementation reads.
use go_microservices_chat.Prelude.{ℕ, String, Bool, List}
use go_microservices_chat.Go.Exec.{Exec}
use go_microservices_chat.Go.Int.{ℤ}
use go_microservices_chat.Go.Time.{Time}
use go_microservices_chat.Chat.Errors.{ChatError}
use go_microservices_chat.Room.Types.{Room, Member}

pub record Repository (S : Type 0) : Type 0 where
  pub create_room : Room → Exec S ChatError (Unit {0})
  pub get_room : String → Exec S ChatError Room
  pub list_rooms_by_member : String → ℤ → String → Exec S ChatError (List Room × String)
  pub search_rooms : String → ℤ → String → Exec S ChatError (List Room × String)
  pub add_member : Time → String → String → Exec S ChatError (Unit {0})
  pub remove_member : String → String → Exec S ChatError (Unit {0})
  pub list_members : String → Exec S ChatError (List Member)
  pub is_member : String → String → Exec S ChatError Bool
  pub count_members : String → Exec S ChatError ℕ
