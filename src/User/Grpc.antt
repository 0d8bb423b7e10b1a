-- ===== src/User/Grpc.antt =====
-- services/user-service/internal/user/grpc.go. Requests and responses are the messages of
-- gen/go/user/v1; a `google.protobuf.Timestamp` is the time that it stands for.
use go_microservices_chat.Prelude.{String, Option, none, some, List, map}
use go_microservices_chat.Go.Errors.{root}
use go_microservices_chat.Go.Exec.{Exec, pure, convert_err, ◌>>=◌}
use go_microservices_chat.Go.Status.{
  Code, Status, not_found as status_not_found, already_exists as status_already_exists, internal,
  unauthenticated,
}
use go_microservices_chat.Go.Time.{Time}
use go_microservices_chat.Auth.Context.{Context}
use go_microservices_chat.User.Types.{
  User, UserSentinel, UserError, not_found, already_exists, invalid_creds, token_invalid,
  error_text,
}
use go_microservices_chat.User.Repository.{Repository}
use go_microservices_chat.User.Service
use go_microservices_chat.User.Service.{Crypto, Call}

pub record UserMessage : Type 0 where
  pub id : String
  pub email : String
  pub username : String
  pub display_name : String
  pub avatar_url : String
  pub status_text : String
  pub created_at : Time
  pub updated_at : Time

pub record RegisterRequest : Type 0 where
  pub email : String
  pub username : String
  pub display_name : String
  pub password : String

pub record UpdateMeRequest : Type 0 where
  pub display_name : Option String
  pub avatar_url : Option String
  pub status_text : Option String

-- the messages of Login and Refresh answer with the same pair
pub record TokenPair : Type 0 where
  pub access_token : String
  pub refresh_token : String

unfoldable pub to_proto : User → UserMessage
to_proto u = record {
  id = u.id;
  email = u.email;
  username = u.username;
  display_name = u.display_name;
  avatar_url = u.avatar_url;
  status_text = u.status_text;
  created_at = u.created_at;
  updated_at = u.updated_at;
}

-- the `switch` on `errors.Is`
abbrev code_of : Option UserSentinel → Code
code_of (some not_found) = status_not_found
code_of (some already_exists) = status_already_exists
code_of (some invalid_creds) = unauthenticated
code_of (some token_invalid) = unauthenticated
code_of none = internal

unfoldable pub map_error : UserError → Status
map_error e = record { code = code_of (root e); message = error_text e }

abbrev to_pair : String × String → TokenPair
to_pair (access, refresh) = record { access_token = access; refresh_token = refresh }

module _ {S : Type 0} (repo : Repository S) (c : Crypto) where
  unfoldable pub register : Call → RegisterRequest → Exec S Status UserMessage
  register k req = do
    u ←
        convert_err map_error
          (Service.register repo c k req.email req.username req.display_name req.password)
    pure (to_proto u)

  unfoldable pub login : Call → String → String → Exec S Status TokenPair
  login k email password = do
    pair ← convert_err map_error (Service.login repo c k email password)
    pure (to_pair pair)

  unfoldable pub refresh : Call → String → Exec S Status TokenPair
  refresh k refresh_token = do
    pair ← convert_err map_error (Service.refresh repo c k refresh_token)
    pure (to_pair pair)

  unfoldable pub get_me : Context → Exec S Status UserMessage
  get_me ctx = do u ← convert_err map_error (Service.get_me repo c ctx); pure (to_proto u)

  unfoldable pub update_me : Context → Call → UpdateMeRequest → Exec S Status UserMessage
  update_me ctx k req = do
    u ←
        convert_err map_error
          (Service.update_me repo c ctx k req.display_name req.avatar_url req.status_text)
    pure (to_proto u)

  unfoldable pub get_user : String → Exec S Status UserMessage
  get_user user_id = do
    u ← convert_err map_error (Service.get_user repo c user_id)
    pure (to_proto u)

  unfoldable pub batch_get_users : List String → Exec S Status (List UserMessage)
  batch_get_users user_ids = do
    users ← convert_err map_error (Service.batch_get_users repo c user_ids)
    pure (map to_proto users)
