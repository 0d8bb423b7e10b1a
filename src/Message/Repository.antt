-- ===== src/Message/Repository.antt =====
-- The interface `Repository` of services/chat-service/internal/message/repository.go, over the state
-- `S` of an implementation.
use go_microservices_chat.Prelude.{String, List}
use go_microservices_chat.Go.Exec.{Exec}
use go_microservices_chat.Go.Int.{ℤ}
use go_microservices_chat.Chat.Errors.{ChatError}
use go_microservices_chat.Message.Types.{Message}
use go_microservices_chat.Message.Cursor.{Cursor}

pub record Repository (S : Type 0) : Type 0 where
  pub insert : Message → Exec S ChatError (Unit {0})
  pub list_by_room : String → ℤ → Cursor → Exec S ChatError (List Message)
