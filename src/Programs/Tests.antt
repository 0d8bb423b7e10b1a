-- ===== src/Programs/Tests.antt =====
-- The theorems on releases at a start that gets to the end, and at one without Redis.
use go_microservices_chat.Prelude.{◌⊎◌, ◌≡◌, ◌≢◌, true, none, some, [], ◌∷◌}
use go_microservices_chat.Go.Exec.{ok, err}
use go_microservices_chat.Config.Realtime as Sockets
use go_microservices_chat.Programs.{served, redis}
use go_microservices_chat.Programs.Servers.{World, run_realtime}
use go_microservices_chat.Programs.Held.{held_after}
use go_microservices_chat.Programs.Release.{documented, run_realtime_releases}

abbrev world : World
world = record {
  getenv = λ key. "value";
  read_file = λ path. ok "pem";
  parse_key = λ pem. ok tt;
  connect = λ url. ok tt;
  new_client = λ addr. ok tt;
  listen = λ addr. ok tt;
  ping = λ addr. err "refused";
  grpc = documented;
  ended = served (some "address in use");
  jwks_first = true;
  shutdown = none;
}

run_realtime_releases_example :
    (((cfg : Sockets.Config) → Sockets.load world.getenv ≢ ok cfg) × ((run_realtime world).1 ≡ []))
    ⊎ ((cfg : Sockets.Config) × (Sockets.load world.getenv ≡ ok cfg)
        × (((world.ping cfg.redis_addr ≡ ok tt) × (held_after (run_realtime world).1 [] ≡ some []))
            ⊎ ((world.ping cfg.redis_addr ≢ ok tt)
                × (held_after (run_realtime world).1 [] ≡ some (redis ∷ [])))))
run_realtime_releases_example = run_realtime_releases world
