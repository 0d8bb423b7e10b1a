-- ===== src/Message/Types.antt =====
-- services/chat-service/internal/message/message.go
use go_microservices_chat.Prelude.{String}
use go_microservices_chat.Go.Time.{Time}

pub record Message : Type 0 where
  pub id : String
  pub room_id : String
  pub sender_id : String
  pub content : String
  pub created_at : Time
