-- ===== src/Config.antt =====
-- services/*/internal/config. The environment is the function `os.Getenv`, which is empty for a variable
-- that is not set.
pub mod User
pub mod Chat
pub mod Realtime
mod Tests
use go_microservices_chat.Prelude.{String, false, ◌≡◌, ◌≢◌, ◌==◌, eq_iff, arith, if◌then◌else◌}

abbrev pub Env : Type 0
Env = String → String

unfoldable pub env_or : Env → String → String → String
env_or getenv key fallback = if getenv key == "" then fallback else getenv key

pub is_filled : (s : String) → (s == "") ≡ false → s ≢ ""
is_filled s h e = ground (arith, eq_iff s "")

pub env_or_filled :
    (getenv : Env) (key fallback : String) → fallback ≢ "" → env_or getenv key fallback ≢ ""
unfolding env_or
env_or_filled getenv key fallback filled e = ground (arith, eq_iff (getenv key) "")
