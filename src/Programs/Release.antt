-- ===== src/Programs/Release.antt =====
-- What was acquired is released.
use mathlib.Core.Bool.{false≢true}
use go_microservices_chat.Prelude.{
  String, ◌≡◌, refl, ap, ◌⊎◌, inl, inr, ◌≢◌, Bool, true, false, none, some, [], ◌∷◌,
}
use go_microservices_chat.Go.Exec.{Result, ok, err, panic}
use go_microservices_chat.Chat.UserClient
use go_microservices_chat.Config.Chat as Chats
use go_microservices_chat.Config.User as Users
use go_microservices_chat.Realtime.ChatClient
use go_microservices_chat.Config.Realtime as Sockets
use go_microservices_chat.Programs.{
  acquires, Run, Ending, Grpc, signalled, served, doing, deferring, holding, checking, ending,
  signals, chat_service, redis, hub, shutdown_timer, http_server, hub_loop, subscriber,
}
use go_microservices_chat.Programs.Servers.{World, run_realtime, run_connected, run_configured}
use go_microservices_chat.Programs.Held.{
  held_after, succeeds, Result-cases, Tidy, holding-Tidy, starts-Tidy, stops-Tidy, finished-Tidy,
  checking-Tidy, nothing_held,
}

-- the end of the realtime service, whose server has no listener of its own here
ending-Tidy : {done : Run} (g : Grpc) (e : Ending) → Tidy done → Tidy (ending g http_server e done)
ending-Tidy g signalled h = h
ending-Tidy g (served none) h = record { leaves = h.leaves }
ending-Tidy g (served (some e)) h = finished-Tidy (some e)

-- gRPC documents that `Serve` closes its listener when it returns, and that `GracefulStop` closes it
abbrev pub documented : Grpc
documented = record { serve_closes = true; stop_closes = true }

-- the user service gets to its servers, and an error of the one for JWKS is the first thing in `errCh`
abbrev pub JwksFails : World → Type 0
JwksFails w =
    (cfg : Users.Config) × (e : String) × (Users.load w.getenv w.read_file ≡ ok cfg)
    × (w.parse_key cfg.jwt_private_key ≡ ok tt)
    × (w.connect cfg.database_url ≡ ok tt)
    × (w.listen cfg.grpc_addr ≡ ok tt)
    × (w.jwks_first ≡ true)
    × (w.ended ≡ served (some e))

abbrev failed : Ending → Bool
failed signalled = false
failed (served none) = false
failed (served (some e)) = true

module _ (w : World) where
  run_connected-Tidy : (cfg : Sockets.Config) → Tidy (run_connected w cfg)
  run_connected-Tidy cfg =
      checking-Tidy "dial chat-service: " (ChatClient.dial w.new_client cfg.chat_service_addr) _
        (λ cc _. holding-Tidy chat_service (
          holding-Tidy hub (
            starts-Tidy hub_loop (
              starts-Tidy subscriber (
                starts-Tidy http_server (
                  ending-Tidy w.grpc w.ended (
                    holding-Tidy shutdown_timer
                      (stops-Tidy http_server (finished-Tidy w.shutdown)))))))))

  pinged :
      (cfg : Sockets.Config) (pong : Result String (Unit {0}))
      → let m = holding signals (
          doing
            (acquires redis)
            (checking "ping redis: " pong (λ u. deferring redis (run_connected w cfg)))) in
        (pong ≡ ok tt → held_after m.1 [] ≡ some [])
        × (pong ≢ ok tt → held_after m.1 [] ≡ some (redis ∷ []))
  pinged cfg (ok tt) = (
    λ e. nothing_held _ (holding-Tidy signals (holding-Tidy redis (run_connected-Tidy cfg))),
    λ ne. absurd (ne refl),
  )
  pinged cfg (err x) = (λ e. absurd (false≢true (ap succeeds e)), λ ne. refl)
  pinged cfg panic = (λ e. absurd (false≢true (ap succeeds e)), λ ne. refl)

  unloaded :
      (r : Result String Sockets.Config)
      → ((cfg : Sockets.Config) → r ≢ ok cfg)
      → (checking "" r (run_configured w)).1 ≡ []
  unloaded (ok cfg) never = absurd (never cfg refl)
  unloaded (err e) never = refl
  unloaded panic never = refl

  -- The realtime service acquires nothing when its configuration cannot be loaded. When Redis answers
  -- the first ping, it gives back everything that it acquired, however it ends; when Redis does not,
  -- `run` returns without closing its client of Redis, and has given back all else.
  pub run_realtime_releases :
      (((cfg : Sockets.Config) → Sockets.load w.getenv ≢ ok cfg) × ((run_realtime w).1 ≡ []))
      ⊎ ((cfg : Sockets.Config) × (Sockets.load w.getenv ≡ ok cfg)
          × (((w.ping cfg.redis_addr ≡ ok tt) × (held_after (run_realtime w).1 [] ≡ some []))
              ⊎ ((w.ping cfg.redis_addr ≢ ok tt)
                  × (held_after (run_realtime w).1 [] ≡ some (redis ∷ [])))))
  unfolding run_realtime
  run_realtime_releases = elim (Result-cases (Sockets.load w.getenv)) [
    | inr failed ↦ inl (failed, unloaded (Sockets.load w.getenv) failed)
    | inl (cfg, load) ↦ inr (
      cfg,
      load,
      elim (Result-cases (w.ping cfg.redis_addr)) [
        | inl (pong, e) ↦
            inl (e, rw (load, run_realtime) ((pinged cfg (w.ping cfg.redis_addr)).0 e))
        | inr silent ↦ inr (
          silent tt,
          rw (load, run_realtime) ((pinged cfg (w.ping cfg.redis_addr)).1 (silent tt)),
        )
      ],
    )
  ]
