-- ===== src/Config/Realtime.antt =====
-- services/realtime-service/internal/config/config.go
use go_microservices_chat.Prelude.{
  String, ◌≡◌, ◌≢◌, refl, ◌⊎◌, inl, inr, ◌==◌, eq_iff, Bool-cases, arith, if◌then◌else◌,
}
use go_microservices_chat.Go.Exec.{Result, ok, err}
use go_microservices_chat.Config.{Env, env_or, env_or_filled, is_filled}

pub record Config : Type 0 where
  pub http_addr : String
  pub redis_addr : String
  pub chat_service_addr : String

unfoldable pub load : Env → Result String Config
load getenv =
    let cfg : Config = record {
      http_addr = env_or getenv "HTTP_ADDR" ":8081";
      redis_addr = getenv "REDIS_ADDR";
      chat_service_addr = getenv "CHAT_SERVICE_ADDR";
    } in
    if cfg.redis_addr == ""
    then err "config: REDIS_ADDR is required"
    else if cfg.chat_service_addr == ""
    then err "config: CHAT_SERVICE_ADDR is required"
    else ok cfg

-- Configuration of the realtime service: either a required variable is missing and the error names the
-- first such, or the configuration is loaded, with the two required variables as they are, and no field
-- of it is empty.
pub load_realtime :
    (getenv : Env)
    → ((load getenv ≡ err "config: REDIS_ADDR is required") × (getenv "REDIS_ADDR" ≡ ""))
      ⊎ ((load getenv ≡ err "config: CHAT_SERVICE_ADDR is required")
          × (getenv "REDIS_ADDR" ≢ "")
          × (getenv "CHAT_SERVICE_ADDR" ≡ ""))
      ⊎ ((cfg : Config) × (load getenv ≡ ok cfg)
          × (cfg.redis_addr ≡ getenv "REDIS_ADDR")
          × (cfg.chat_service_addr ≡ getenv "CHAT_SERVICE_ADDR")
          × (cfg.http_addr ≢ "")
          × (cfg.redis_addr ≢ "")
          × (cfg.chat_service_addr ≢ ""))
unfolding load
load_realtime getenv = elim (Bool-cases (getenv "REDIS_ADDR" == "")) [
  | inl e ↦ inl (ground arith, (eq_iff (getenv "REDIS_ADDR") "").0 e)
  | inr e ↦ elim (Bool-cases (getenv "CHAT_SERVICE_ADDR" == "")) [
    | inl f ↦ inr (
        inl (
          ground arith,
          is_filled (getenv "REDIS_ADDR") e,
          (eq_iff (getenv "CHAT_SERVICE_ADDR") "").0 f,
        ))
    | inr f ↦ inr (
        inr (
          record {
            http_addr = env_or getenv "HTTP_ADDR" ":8081";
            redis_addr = getenv "REDIS_ADDR";
            chat_service_addr = getenv "CHAT_SERVICE_ADDR";
          },
          ground arith,
          refl,
          refl,
          env_or_filled getenv "HTTP_ADDR" ":8081" (is_filled ":8081" refl),
          is_filled (getenv "REDIS_ADDR") e,
          is_filled (getenv "CHAT_SERVICE_ADDR") f,
        ))
  ]
]
