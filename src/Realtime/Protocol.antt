-- ===== src/Realtime/Protocol.antt =====
-- services/realtime-service/internal/ws/protocol.go. encoding/json is a parameter.
use go_microservices_chat.Prelude.{String}
use go_microservices_chat.Go.Exec.{Result}
use go_microservices_chat.Go.Time.{Time}

pub record Inbound : Type 0 where
  pub type : String
  pub content : String

pub record Outbound : Type 0 where
  pub type : String
  pub id : String
  pub room_id : String
  pub sender_id : String
  pub content : String
  pub created_at : Time
  pub code : String
  pub message : String

abbrev pub type_message : String
type_message = "message"

abbrev pub type_error : String
type_error = "error"

-- `json.Marshal` of an `Outbound` and `json.Unmarshal` into an `Inbound`; an error is its text
pub record Json : Type 0 where
  pub marshal : Outbound → Result String String
  pub unmarshal : String → Result String Inbound
