-- ===== src/Lib.antt =====
-- A model of the chat back end and what it guarantees. The program is three gRPC or web socket
-- services. The user service (services/user-service) keeps accounts and refresh tokens and issues
-- access tokens; the chat service (services/chat-service) keeps rooms, their members and their
-- messages, and asks the user service for profiles; the realtime service
-- (services/realtime-service) passes new messages on over web sockets. A gateway in front of them
-- checks the access token and puts the user id into the metadata `x-user-id`.
--
-- Prelude: names of the libraries, tests on numbers, lists measured by native numbers.
-- Go: what Go itself provides. Go/Exec is a method: a function from the state to a result and a new
--   state, where the result is a value, an error, or Go's runtime panic, and what was written
--   before an error stays written; Go/Exec/Keeps has the rules by which a method keeps an
--   invariant. Go/Sql is what the repositories use of pgx: a pool that runs a statement given by
--   its text, the conversion of rows, and the tests on its errors. Go/Base64 is
--   `base64.RawURLEncoding`; Go/Dict is a map, whose order of `range` is left open; Go/Errors is
--   `fmt.Errorf` with `%w` and `errors.Is`; Go/Sort is `sort.Slice`, with Go/Sort/Keys for elements
--   of equal keys; Go/Strings, Go/Time, Go/Int and Go/Status are the parts of `strings`, `time`,
--   `int` and gRPC's status that the services use.
-- Auth: pkg/auth. Context is context.go, Issuer is issuer.go, Jwks is jwks.go.
-- Config: the three services/*/internal/config/config.go.
-- Interceptor: pkg/interceptor/logging.go.
-- Programs: services/*/cmd/server/main.go. Servers has `run` of each program, Held has what a run
--   holds after its events, and Release is about what it gives back. What gRPC does with the
--   listener that `Serve` was given is a parameter.
-- User: services/user-service/internal/user. Types is user.go, Repository the interface of
--   repository.go, Postgres its implementation there, Inmem repository_inmem.go, Service
--   service.go, Grpc grpc.go; a method such as `Service.UpdateMe` is the function `update_me` of
--   its module. Inmem/Invariant and Service/Invariant carry the constraints of the tables through
--   every call; Inmem/Spent and Service/Spent follow a refresh token after its use;
--   Service/Accounts, Service/Rotation and Service/Race are about accounts, about one use of a
--   token, and about two uses at a time; Service/Lost is about two changes of a profile at a time.
--   Postgres/Equivalence, Postgres/Batch and Postgres/Tokens have the repositories side by side,
--   for users, for lists of ids and for refresh tokens, and Postgres/Tables what the first assumes
--   of the database.
-- Chat: the errors that rooms and messages share, internal/userclient of the chat service, with its
--   double in UserClient/Fake, and Server, which is internal/grpc/server.go. Server/Calls runs a
--   list of RPCs from given stores, Server/Invariant is about one of them, and Server/Reachable
--   about what such runs lead to.
-- Room: services/chat-service/internal/room, laid out as User is. Service/Members is about
--   creating, joining and leaving, Service/Listing about the lists, Grpc/Enrichment about the
--   profiles of members. Inmem/Effects and Postgres/Effects say what the methods of each repository
--   leave, for Postgres/Equivalence, and Postgres/Lists compares the lists; Postgres/Joined says
--   which rooms the loop of the repository in memory collects.
-- Message: services/chat-service/internal/message. Cursor holds the cursors of service.go, Order
--   the order of messages, Inmem/History the history of a room and what is left behind a cursor,
--   Service/Pages the pages of `GetMessages`, Grpc/Authorisation who may send and read,
--   Postgres/Equivalence the two repositories side by side.
-- Realtime: services/realtime-service. Hub is internal/hub: what each case of the `select` of `Run`
--   does. Hub/Open is about closed channels, Hub/Delivery about who gets a broadcast, Hub/Buffers
--   about what waits in the channels, Hub/Order about the order of two steps, Hub/Tidy about who is
--   listed twice and how full a channel is, and Hub/Presence has what the hub is for, without its
--   maps and lists. Hub/Loop has the three channels in front of the hub, the methods that write to
--   them, `Stop`, and `Run` as a loop whose `select` takes any case that is ready; Loop/Fresh,
--   Valid, Turns, Reading and Reachable carry an invariant through every state, Loop/Promised holds
--   every state against Hub/Presence, Loop/Rest is about its end, Loop/Offers, Ordered and Queued
--   about the order of events. Pubsub is internal/pubsub: the interfaces, the broker in memory, and
--   the broker on Redis; Pubsub/Brokers has the two side by side. ChatClient is
--   internal/chatclient; Protocol and Handler are internal/ws, Handler/Connection being a request
--   from its start to the end of the connection (its methods call by call in Connection/Calls) and
--   Handler/Writing the loop that writes frames. System puts them together as cmd/server/main.go
--   does, as a step relation on the state of all of them: System/Payloads and System/Rooms are
--   about what its runs show to a client, System/Overtaking about what the tasks of messages can do
--   in any order, System/Shown about the way of a message to a web socket, and System/Stored has
--   the chat service behind the realtime service.
--
-- A service is a function over any repository. A record `Call` holds what one call gets from
-- outside: the clock, random bytes, a UUID. Parameters stand for bcrypt, SHA-256, the signer of
-- tokens, the tables of `unicode`, and the JSON encoders. A theorem that needs one of them to
-- behave says so in a hypothesis. A mutex makes each method of a repository one step; interleavings
-- of service calls are sequences of such steps in User/Service/Race and User/Service/Lost. A client
-- of the hub is an address, and addresses are handed out in order.
--
-- Times are nanoseconds since the year 0; `UnixNano` wraps around as an `int64` does. Limits are
-- Go's `int`, without a bound, and a member count is cut to an `int32`. Three recursions are not on
-- a list or a derivation, and have fuel. The error of Go/Base64 is written with nineteen digits,
-- the most that an `int64` has. `walk` of Message/Service/Pages is a client that asks for page
-- after page: its fuel is the number of requests, and one more than the number of messages is
-- enough. `run` of Realtime/Hub/Loop is the loop of `Run`: its fuel is the number of rounds, and
-- one more than the number of values that wait in the channels is enough.
--
-- The realtime service is a relation, since its goroutines and channels run in any order: a step is
-- one task, one value that goes through a channel, or one frame that is read or written. Only an
-- open connection reads a frame, or has one written to its web socket; its write loop may fail or
-- return at any time, and a call of `Unregister` comes after the web socket is closed. The broker
-- there is the one in memory, whose 64 places are a guard of the step that publishes; the channels
-- of the hub hold 16, 16 and 256 values, and a call whose channel is full waits. What PUBLISH of
-- Redis delivers is a hypothesis, and go-redis a parameter. What PostgreSQL does with a statement
-- is a parameter too; Message/Postgres/Equivalence, User/Postgres/Tables, User/Postgres/Batch,
-- User/Postgres/Tokens, Room/Postgres/Tables and Room/Postgres/Lists state what is assumed of the
-- tables, and the tests beside them have such tables: a list, maps and functions. An id is a UUID
-- there, and a time that is written to a row is a whole number of microseconds.
--
-- Not modelled: the web sockets themselves and their time limits, the servers and signals of the
-- programs, and writing to logs and HTTP answers, which are I/O; and the generated gRPC stubs.
-- Infrastructure and tests are left out.
mod Prelude
pub mod Go
pub mod Auth
pub mod Config
pub mod Interceptor
pub mod Programs
pub mod User
pub mod Chat
pub mod Room
pub mod Message
pub mod Realtime
