-- ===== src/Realtime/ChatClient.antt =====
-- services/realtime-service/internal/chatclient: client.go and fake.go.
use Prim.Native.String.{◌++◌ as append}
use go_microservices_chat.Prelude.{
  ◌==◌, if◌then◌else◌, String, Option, none, some, List, [], ◌∷◌, ◌++◌,
}
use go_microservices_chat.Go.Exec.{Result, ok, err, panic, Exec, ◌>>=◌, pure}
use go_microservices_chat.Auth.Context.{Context, metadata_key_user_id}

-- the interface `Client`: sender, room and content. An error is its text.
abbrev pub Client : Type 0 → Type 0
Client S = Context → String → String → String → Exec S String (Unit {0})

-- `metadata.AppendToOutgoingContext`
abbrev pub with_sender : Context → String → Context
with_sender ctx sender_id = record ctx {
  outgoing = ctx.outgoing ++ (metadata_key_user_id, sender_id) ∷ [];
}

-- `SendMessage` of `grpcClient`; `rpc ctx room_id sender_id content` is the RPC of the chat service
unfoldable pub send_message :
    {S A : Type 0} → (Context → String → String → String → Exec S String A) → Client S
send_message rpc ctx sender_id room_id content =
    rpc (with_sender ctx sender_id) room_id sender_id content >>= λ _. pure tt

abbrev connected : {C : Type 0} → Result String C → Result String C
connected (ok conn) = ok conn
connected (err e) = err (append "chatclient: dial: " e)
connected panic = panic

-- `Dial`, over `grpc.NewClient`
unfoldable pub dial : {C : Type 0} → (String → Result String C) → String → Result String C
dial new_client addr =
    if addr == "" then err "chatclient: addr is required" else connected (new_client addr)

pub record FakeCall : Type 0 where
  pub sender_id : String
  pub room_id : String
  pub content : String

pub record Fake : Type 0 where
  pub sent : List FakeCall
  pub err : Option String

abbrev pub new_fake : Fake
new_fake = record { sent = []; err = none }

unfoldable pub fake_send_message : Client Fake
fake_send_message ctx sender_id room_id content f = elim f.err [
  | some e ↦ (err e, f)
  | none ↦ (
    ok tt,
    record f {
      sent = f.sent ++ record { sender_id = sender_id; room_id = room_id; content = content } ∷ [];
    },
  )
]
