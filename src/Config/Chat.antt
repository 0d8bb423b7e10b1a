-- ===== src/Config/Chat.antt =====
-- services/chat-service/internal/config/config.go
use go_microservices_chat.Prelude.{
  String, ◌≡◌, ◌≢◌, refl, ◌⊎◌, inl, inr, ◌==◌, eq_iff, Bool-cases, arith, if◌then◌else◌,
}
use go_microservices_chat.Go.Exec.{Result, ok, err}
use go_microservices_chat.Config.{Env, env_or, env_or_filled, is_filled}

pub record Config : Type 0 where
  pub grpc_addr : String
  pub database_url : String
  pub user_service_addr : String

unfoldable pub load : Env → Result String Config
load getenv =
    let cfg : Config = record {
      grpc_addr = env_or getenv "GRPC_ADDR" ":50052";
      database_url = getenv "DATABASE_URL";
      user_service_addr = getenv "USER_SERVICE_ADDR";
    } in
    if cfg.database_url == ""
    then err "config: DATABASE_URL is required"
    else if cfg.user_service_addr == ""
    then err "config: USER_SERVICE_ADDR is required"
    else ok cfg

-- Configuration of the chat service: either a required variable is missing and the error names the
-- first such, or the configuration is loaded, with the two required variables as they are, and no field
-- of it is empty.
pub load_chat :
    (getenv : Env)
    → ((load getenv ≡ err "config: DATABASE_URL is required") × (getenv "DATABASE_URL" ≡ ""))
      ⊎ ((load getenv ≡ err "config: USER_SERVICE_ADDR is required")
          × (getenv "DATABASE_URL" ≢ "")
          × (getenv "USER_SERVICE_ADDR" ≡ ""))
      ⊎ ((cfg : Config) × (load getenv ≡ ok cfg)
          × (cfg.database_url ≡ getenv "DATABASE_URL")
          × (cfg.user_service_addr ≡ getenv "USER_SERVICE_ADDR")
          × (cfg.grpc_addr ≢ "")
          × (cfg.database_url ≢ "")
          × (cfg.user_service_addr ≢ ""))
unfolding load
load_chat getenv = elim (Bool-cases (getenv "DATABASE_URL" == "")) [
  | inl e ↦ inl (ground arith, (eq_iff (getenv "DATABASE_URL") "").0 e)
  | inr e ↦ elim (Bool-cases (getenv "USER_SERVICE_ADDR" == "")) [
    | inl f ↦ inr (
        inl (
          ground arith,
          is_filled (getenv "DATABASE_URL") e,
          (eq_iff (getenv "USER_SERVICE_ADDR") "").0 f,
        ))
    | inr f ↦ inr (
        inr (
          record {
            grpc_addr = env_or getenv "GRPC_ADDR" ":50052";
            database_url = getenv "DATABASE_URL";
            user_service_addr = getenv "USER_SERVICE_ADDR";
          },
          ground arith,
          refl,
          refl,
          env_or_filled getenv "GRPC_ADDR" ":50052" (is_filled ":50052" refl),
          is_filled (getenv "DATABASE_URL") e,
          is_filled (getenv "USER_SERVICE_ADDR") f,
        ))
  ]
]
