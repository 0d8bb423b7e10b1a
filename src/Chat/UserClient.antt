-- ===== src/Chat/UserClient.antt =====
-- services/chat-service/internal/userclient: client.go. The connection is a parameter: `call` is what an
-- RPC of the user service answers; an error is its text.
pub mod Fake
use Prim.Native.String.{◌++◌ as append}
use go_microservices_chat.Prelude.{String, List, [], ◌∷◌, map, ◌==◌, if◌then◌else◌}
use go_microservices_chat.Go.Exec.{Result, ok, err, panic}
use go_microservices_chat.Auth.Context.{Context, propagate_requester}
use go_microservices_chat.User.Grpc.{UserMessage}

pub record Profile : Type 0 where
  pub id : String
  pub username : String
  pub display_name : String
  pub avatar_url : String

abbrev pub to_profile : UserMessage → Profile
to_profile u = record {
  id = u.id;
  username = u.username;
  display_name = u.display_name;
  avatar_url = u.avatar_url;
}

-- the part of the interface `Client` that the room adapter calls
abbrev pub Client : Type 0
Client = Context → List String → Result String (List Profile)

abbrev profiles : Result String (List UserMessage) → Result String (List Profile)
profiles (ok users) = ok (map to_profile users)
profiles (err e) = err e
profiles panic = panic

-- no RPC for an empty list
unfoldable pub batch_get_users : (Context → List String → Result String (List UserMessage)) → Client
batch_get_users call ctx [] = ok []
batch_get_users call ctx (id ∷ ids) = profiles (call (propagate_requester ctx) (id ∷ ids))

abbrev profile_of : Result String UserMessage → Result String Profile
profile_of (ok u) = ok (to_profile u)
profile_of (err e) = err e
profile_of panic = panic

unfoldable pub get_user :
    (Context → String → Result String UserMessage) → Context → String → Result String Profile
get_user call ctx user_id = profile_of (call (propagate_requester ctx) user_id)

abbrev connected : {C : Type 0} → Result String C → Result String C
connected (ok conn) = ok conn
connected (err e) = err (append "userclient: dial: " e)
connected panic = panic

-- `Dial`, over `grpc.NewClient`
unfoldable pub dial : {C : Type 0} → (String → Result String C) → String → Result String C
dial new_client addr =
    if addr == "" then err "userclient: addr is required" else connected (new_client addr)
