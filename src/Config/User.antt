-- ===== src/Config/User.antt =====
-- services/user-service/internal/config/config.go. `os.ReadFile` is a parameter.
use go_microservices_chat.Prelude.{
  String, ◌≡◌, ◌≢◌, refl, ◌⊎◌, inl, inr, ◌==◌, eq_iff, Bool-cases, arith, if◌then◌else◌,
}
use go_microservices_chat.Go.Exec.{Result, ok, err, panic}
use go_microservices_chat.Config.{Env, env_or, env_or_filled, is_filled}

pub record Config : Type 0 where
  pub grpc_addr : String
  pub jwks_addr : String
  pub database_url : String
  pub jwt_private_key : String
  pub jwt_key_id : String

-- the file, or nothing if it cannot be read
abbrev content : Result String String → String
content (ok b) = b
content (err e) = ""
content panic = ""

module _ (getenv : Env) (read_file : String → Result String String) where
  unfoldable pub load_private_key_material : String
  load_private_key_material =
      if getenv "JWT_PRIVATE_KEY" == ""
      then (if getenv "JWT_PRIVATE_KEY_FILE" == ""
          then ""
          else content (read_file (getenv "JWT_PRIVATE_KEY_FILE")))
      else getenv "JWT_PRIVATE_KEY"

  unfoldable pub load : Result String Config
  load =
      let cfg : Config = record {
        grpc_addr = env_or getenv "GRPC_ADDR" ":50051";
        jwks_addr = env_or getenv "JWKS_ADDR" ":8082";
        database_url = getenv "DATABASE_URL";
        jwt_private_key = load_private_key_material;
        jwt_key_id = env_or getenv "JWT_KEY_ID" "user-service-key";
      } in
      if cfg.database_url == ""
      then err "config: DATABASE_URL is required"
      else if cfg.jwt_private_key == ""
      then err "config: JWT_PRIVATE_KEY or JWT_PRIVATE_KEY_FILE is required"
      else ok cfg

  -- no field is empty
  pub record Filled (cfg : Config) : Type 0 where
    pub grpc_addr : cfg.grpc_addr ≢ ""
    pub jwks_addr : cfg.jwks_addr ≢ ""
    pub database_url : cfg.database_url ≢ ""
    pub jwt_private_key : cfg.jwt_private_key ≢ ""
    pub jwt_key_id : cfg.jwt_key_id ≢ ""

  no_key : load_private_key_material ≡ "" → getenv "JWT_PRIVATE_KEY" ≡ ""
  unfolding load_private_key_material
  no_key e = ground (arith, eq_iff (getenv "JWT_PRIVATE_KEY") "")

  key_wins :
      (getenv "JWT_PRIVATE_KEY" ≡ "") ⊎ (load_private_key_material ≡ getenv "JWT_PRIVATE_KEY")
  unfolding load_private_key_material
  key_wins = elim (Bool-cases (getenv "JWT_PRIVATE_KEY" == "")) [
    | inl e ↦ inl ((eq_iff (getenv "JWT_PRIVATE_KEY") "").0 e)
    | inr e ↦ inr (ground arith)
  ]

  -- Configuration of the user service: either the database is missing, or there is a database but no
  -- private key, neither from a file nor in the environment, and the error names what is missing.
  -- Otherwise the configuration is loaded, and no field of it is empty; a private key in the environment
  -- wins over the file.
  pub load_user :
      ((load ≡ err "config: DATABASE_URL is required") × (getenv "DATABASE_URL" ≡ ""))
      ⊎ ((load ≡ err "config: JWT_PRIVATE_KEY or JWT_PRIVATE_KEY_FILE is required")
          × (getenv "DATABASE_URL" ≢ "")
          × (load_private_key_material ≡ "")
          × (getenv "JWT_PRIVATE_KEY" ≡ ""))
      ⊎ ((cfg : Config) × (load ≡ ok cfg)
          × Filled cfg
          × (cfg.database_url ≡ getenv "DATABASE_URL")
          × ((getenv "JWT_PRIVATE_KEY" ≡ "") ⊎ (cfg.jwt_private_key ≡ getenv "JWT_PRIVATE_KEY")))
  unfolding load
  load_user = elim (Bool-cases (getenv "DATABASE_URL" == "")) [
    | inl e ↦ inl (ground arith, (eq_iff (getenv "DATABASE_URL") "").0 e)
    | inr e ↦ elim (Bool-cases (load_private_key_material == "")) [
      | inl f ↦
          let none' = (eq_iff load_private_key_material "").0 f in
          inr (inl (ground arith, is_filled (getenv "DATABASE_URL") e, none', no_key none'))
      | inr f ↦ inr (
          inr (
            record {
              grpc_addr = env_or getenv "GRPC_ADDR" ":50051";
              jwks_addr = env_or getenv "JWKS_ADDR" ":8082";
              database_url = getenv "DATABASE_URL";
              jwt_private_key = load_private_key_material;
              jwt_key_id = env_or getenv "JWT_KEY_ID" "user-service-key";
            },
            ground arith,
            record {
              grpc_addr = env_or_filled getenv "GRPC_ADDR" ":50051" (is_filled ":50051" refl);
              jwks_addr = env_or_filled getenv "JWKS_ADDR" ":8082" (is_filled ":8082" refl);
              database_url = is_filled (getenv "DATABASE_URL") e;
              jwt_private_key = is_filled load_private_key_material f;
              jwt_key_id =
                  env_or_filled getenv "JWT_KEY_ID" "user-service-key"
                    (is_filled "user-service-key" refl);
            },
            refl,
            key_wins,
          ))
    ]
  ]
