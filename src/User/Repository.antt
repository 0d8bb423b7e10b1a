-- ===== src/User/Repository.antt =====
-- The interface `Repository` of services/user-service/internal/user/repository.go, over the state
-- `S` of an implementation.
use go_microservices_chat.Prelude.{String, List}
use go_microservices_chat.Go.Exec.{Exec}
use go_microservices_chat.Go.Time.{Time}
use go_microservices_chat.User.Types.{User, RefreshToken, UserError}

pub record Repository (S : Type 0) : Type 0 where
  pub create_user : User → Exec S UserError (Unit {0})
  pub get_user_by_id : String → Exec S UserError User
  pub get_users_by_ids : List String → Exec S UserError (List User)
  pub get_user_by_email : String → Exec S UserError User
  pub update_user : User → Exec S UserError (Unit {0})
  pub create_refresh_token : RefreshToken → Exec S UserError (Unit {0})
  pub get_refresh_token_by_hash : String → Exec S UserError RefreshToken
  pub revoke_refresh_token : String → Time → Exec S UserError (Unit {0})
