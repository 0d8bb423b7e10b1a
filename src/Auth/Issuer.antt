-- ===== src/Auth/Issuer.antt =====
-- pkg/auth/issuer.go. The JWT library is a parameter: `numeric_date` is `jwt.NewNumericDate`, and
-- `sign key_id claims` is `SignedString` of an RS256 token with that `kid`.
use Prim.Native.String.{◌++◌ as append}
use go_microservices_chat.Prelude.{ℕ, ◌+◌, ◌*◌, String, ◌==◌, if◌then◌else◌}
use go_microservices_chat.Go.Exec.{Result, err, convert}
use go_microservices_chat.Go.Time.{Time, second}

abbrev pub default_issuer : String
default_issuer = "chat-app"

abbrev pub access_token_ttl : ℕ
access_token_ttl = 15 * 60 * second

-- `iss`, `sub`, `iat` and `exp` are jwt.RegisteredClaims
pub record Claims : Type 0 where
  pub user_id : String
  pub username : String
  pub issuer : String
  pub subject : String
  pub issued_at : Time
  pub expires_at : Time

pub record Issuer : Type 0 where
  pub key_id : String
  pub issuer : String
  pub now : Time
  pub numeric_date : Time → Time
  pub sign : String → Claims → Result String String

abbrev pub new_issuer :
    String → Time → (Time → Time) → (String → Claims → Result String String) → Issuer
new_issuer key_id now numeric_date sign = record {
  key_id = key_id;
  issuer = default_issuer;
  now = now;
  numeric_date = numeric_date;
  sign = sign;
}

unfoldable pub claims_for : Issuer → String → String → Claims
claims_for i user_id username = record {
  user_id = user_id;
  username = username;
  issuer = i.issuer;
  subject = user_id;
  issued_at = i.numeric_date i.now;
  expires_at = i.numeric_date (i.now + access_token_ttl);
}

-- an error is its text
unfoldable pub issue_access_token : Issuer → String → String → Result String String
unfolding claims_for
issue_access_token i user_id username =
    if user_id == ""
    then err "auth: userID is required"
    else convert (append "auth: sign access token: ")
        (i.sign i.key_id (claims_for i user_id username))
