-- ===== src/Programs/Servers.antt =====
-- The three programs.
use go_microservices_chat.Prelude.{String, Bool, if◌then◌else◌, Option, none, []}
use go_microservices_chat.Go.Exec.{Result}
use go_microservices_chat.Chat.UserClient
use go_microservices_chat.Config.{Env}
use go_microservices_chat.Config.Chat as Chats
use go_microservices_chat.Config.Realtime as Sockets
use go_microservices_chat.Config.User as Users
use go_microservices_chat.Programs.{
  Run, Ending, Grpc, signals, database, user_service, chat_service, redis, hub, shutdown_timer,
  starts, stops, hub_loop, subscriber, grpc_server, jwks_server, http_server, acquires, doing,
  deferring, holding, checking, ending, graceful_stop, listener, Task,
}
use go_microservices_chat.Realtime.ChatClient

-- what the world answers: `pgxpool.New`, `grpc.NewClient`, `net.Listen`, `Ping` of Redis,
-- `jwt.ParseRSAPrivateKeyFromPEM` and `Shutdown`
pub record World : Type 0 where
  pub getenv : Env
  pub read_file : String → Result String String
  pub parse_key : String → Result String (Unit {0})
  pub connect : String → Result String (Unit {0})
  pub new_client : String → Result String (Unit {0})
  pub listen : String → Result String (Unit {0})
  pub ping : String → Result String (Unit {0})
  pub grpc : Grpc
  pub ended : Ending
  -- whether what the user service finds in `errCh` is from its JWKS server
  pub jwks_first : Bool
  pub shutdown : Option String

-- the server of the user service that sent to `errCh` first
abbrev pub first_server : World → Task
first_server w = if w.jwks_first then jwks_server else grpc_server

-- `run` of the user service once it listens
abbrev pub run_listening : World → Run
run_listening w = doing (acquires listener) (
    doing (starts grpc_server) (
      doing (starts jwks_server) (
        ending w.grpc (first_server w) w.ended (
          graceful_stop w.grpc (first_server w) w.ended
            (holding shutdown_timer (doing (stops jwks_server) (none, [])))))))

unfoldable pub run_user : World → Run
run_user w = checking "" (Users.load w.getenv w.read_file) (λ cfg.
    checking "parse private key: " (w.parse_key cfg.jwt_private_key) (λ key. holding signals (
      checking "connect db: " (w.connect cfg.database_url) (λ pool.
        holding database
          (checking "listen grpc: " (w.listen cfg.grpc_addr) (λ lis. run_listening w))))))

unfoldable pub run_chat : World → Run
run_chat w = checking "" (Chats.load w.getenv) (λ cfg. holding signals (
    checking "connect db: " (w.connect cfg.database_url) (λ pool. holding database (
      checking "dial user-service: " (UserClient.dial w.new_client cfg.user_service_addr) (λ uc.
        holding user_service (
          checking "listen: " (w.listen cfg.grpc_addr) (λ lis. doing (acquires listener) (
            doing (starts grpc_server) (
              ending w.grpc grpc_server w.ended
                (graceful_stop w.grpc grpc_server w.ended (none, [])))))))))))

-- `run` once Redis has answered
abbrev pub run_connected : World → Sockets.Config → Run
run_connected w cfg =
    checking "dial chat-service: " (ChatClient.dial w.new_client cfg.chat_service_addr) (λ cc.
      holding chat_service (
        doing (acquires hub) (
          doing (starts hub_loop) (
            deferring hub (
              doing (starts subscriber) (
                doing (starts http_server) (
                  ending w.grpc http_server w.ended
                    (holding shutdown_timer (doing (stops http_server) (w.shutdown, []))))))))))

-- the release of the connection to Redis is deferred only when Redis has answered
abbrev pub run_configured : World → Sockets.Config → Run
run_configured w cfg = holding signals (
    doing (acquires redis) (
      checking "ping redis: " (w.ping cfg.redis_addr)
        (λ pong. deferring redis (run_connected w cfg))))

unfoldable pub run_realtime : World → Run
run_realtime w = checking "" (Sockets.load w.getenv) (λ cfg. run_configured w cfg)
