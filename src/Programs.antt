-- ===== src/Programs.antt =====
-- services/*/cmd/server/main.go: the function `run` of each program. What the world answers, whether a
-- database can be reached and what ends the program, is a parameter; a run is the error that `run`
-- returns and what it did, in order. The time limit of the first ping is left out.
pub mod Held
pub mod Release
pub mod Servers
mod Tests
use Prim.Native.String.{◌++◌ as append}
use go_microservices_chat.Prelude.{
  String, Bool, true, false, Option, none, some, List, [], ◌∷◌, ◌++◌, if◌then◌else◌,
}
use go_microservices_chat.Go.Exec.{Result, ok, err, panic}

-- what a run has to give back: with a deferred call, `cancel` of a context, `Close` of a connection and
-- `Stop` of the hub; and the listener of `net.Listen`, which the gRPC server closes
pub data Resource : Type 0 where
  listener signals database user_service chat_service redis hub shutdown_timer : Resource

pub data Task : Type 0 where
  hub_loop subscriber grpc_server jwks_server http_server : Task

pub data Event : Type 0 where
  acquires : Resource → Event
  releases : Resource → Event
  starts : Task → Event
  stops : Task → Event

abbrev pub Run : Type 0
Run = Option String × List Event

-- the `select` at the end: a signal, or what a server sent to `errCh`, without `http.ErrServerClosed`
pub data Ending : Type 0 where
  signalled : Ending
  served : Option String → Ending

abbrev pub doing : Event → Run → Run
doing e (r, t) = (r, e ∷ t)

-- `defer`
abbrev pub deferring : Resource → Run → Run
deferring x (r, t) = (r, t ++ releases x ∷ [])

-- a resource whose release is deferred as soon as it is there
abbrev pub holding : Resource → Run → Run
holding x m = doing (acquires x) (deferring x m)

-- `if err != nil { return fmt.Errorf("...: %w", err) }`; a panic ends the program as well
abbrev pub checking : {A : Type 0} → String → Result String A → (A → Run) → Run
checking before (ok a) go = go a
checking before (err e) go = (some (append before e), [])
checking before panic go = (some "panic", [])

-- what gRPC does with the listener that `Serve` was given: whether it is closed when `Serve` returns, and
-- by `GracefulStop`
pub record Grpc : Type 0 where
  pub serve_closes : Bool
  pub stop_closes : Bool

abbrev pub close_listener : Bool → List Event
close_listener closes = if closes then releases listener ∷ [] else []

-- what a server does before it sends to `errCh`
abbrev pub serve_returns : Grpc → Task → List Event
serve_returns g grpc_server = close_listener g.serve_closes
serve_returns g _ = []

-- the end of `run`, with the server that sent to `errCh`, and what is done when no server failed
abbrev pub ending : Grpc → Task → Ending → Run → Run
ending g t signalled done = done
ending g t (served none) (r, events) = (r, serve_returns g t ++ events)
ending g t (served (some e)) done = (some e, serve_returns g t)

-- `GracefulStop`, which finds no listener when `Serve` has returned
abbrev pub graceful_stop : Grpc → Task → Ending → Run → Run
graceful_stop g grpc_server (served r) done = doing (stops grpc_server) done
graceful_stop g _ _ (r, events) = (r, stops grpc_server ∷ close_listener g.stop_closes ++ events)
