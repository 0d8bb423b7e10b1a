-- ===== src/Room/Types.antt =====
-- services/chat-service/internal/room/room.go
use go_microservices_chat.Prelude.{String}
use go_microservices_chat.Go.Time.{Time, zero_time}

pub record Room : Type 0 where
  pub id : String
  pub name : String
  pub created_by : String
  pub created_at : Time

pub record Member : Type 0 where
  pub user_id : String
  pub joined_at : Time

-- Go's `Room{}`
abbrev pub zero_room : Room
zero_room = record { id = ""; name = ""; created_by = ""; created_at = zero_time }
