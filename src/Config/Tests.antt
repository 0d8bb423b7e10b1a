-- ===== src/Config/Tests.antt =====
-- The theorem on the configuration of the user service, with every variable set.
use go_microservices_chat.Prelude.{◌≡◌, ◌≢◌, ◌⊎◌}
use go_microservices_chat.Go.Exec.{ok, err}
use go_microservices_chat.Config.{Env}
use go_microservices_chat.Config.User as Users

abbrev all_set : Env
all_set key = "value"

load_user_all_set :
    ((Users.load all_set ok ≡ err "config: DATABASE_URL is required")
      × (all_set "DATABASE_URL" ≡ ""))
    ⊎ ((Users.load all_set ok ≡ err "config: JWT_PRIVATE_KEY or JWT_PRIVATE_KEY_FILE is required")
        × (all_set "DATABASE_URL" ≢ "")
        × (Users.load_private_key_material all_set ok ≡ "")
        × (all_set "JWT_PRIVATE_KEY" ≡ ""))
    ⊎ ((cfg : Users.Config) × (Users.load all_set ok ≡ ok cfg)
        × Users.Filled all_set ok cfg
        × (cfg.database_url ≡ all_set "DATABASE_URL")
        × ((all_set "JWT_PRIVATE_KEY" ≡ "") ⊎ (cfg.jwt_private_key ≡ all_set "JWT_PRIVATE_KEY")))
load_user_all_set = Users.load_user all_set ok
