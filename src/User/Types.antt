-- ===== src/User/Types.antt =====
-- services/user-service/internal/user/user.go
use go_microservices_chat.Prelude.{String, Option}
use go_microservices_chat.Go.Errors.{GoError}
use go_microservices_chat.Go.Errors
use go_microservices_chat.Go.Time.{Time}

pub record User : Type 0 where
  pub id : String
  pub email : String
  pub username : String
  pub password_hash : String
  pub display_name : String
  pub avatar_url : String
  pub status_text : String
  pub created_at : Time
  pub updated_at : Time

-- `revoked_at` is a pointer
pub record RefreshToken : Type 0 where
  pub id : String
  pub user_id : String
  pub token_hash : String
  pub expires_at : Time
  pub revoked_at : Option Time
  pub created_at : Time

pub data UserSentinel : Type 0 where
  not_found already_exists invalid_creds token_invalid : UserSentinel

abbrev pub UserError : Type 0
UserError = GoError UserSentinel

abbrev pub sentinel_text : UserSentinel → String
sentinel_text not_found = "user: not found"
sentinel_text already_exists = "user: already exists"
sentinel_text invalid_creds = "user: invalid credentials"
sentinel_text token_invalid = "user: refresh token invalid or expired"

-- `err.Error()`
abbrev pub error_text : UserError → String
error_text = Errors.text sentinel_text
