-- ===== src/User/Service.antt =====
-- services/user-service/internal/user/service.go, over any repository.
pub mod Invariant
pub mod Race
pub mod Lost
pub mod Rotation
pub mod Spent
pub mod Accounts
use Prim.Native.Char.{Char}
use go_microservices_chat.Prelude.{
  ℕ, ◌+◌, ◌*◌, String, Bool, true, ◌||◌, Option, none, some, List, ltb, ◌==◌, if◌then◌else◌,
}
use go_microservices_chat.Go.Errors.{sentinel, wrap, foreign, root}
use go_microservices_chat.Go.Exec.{
  Result, ok, err, panic, Exec, convert, pure, raise, lift, convert_err, ◌>>=◌, ◌>>◌,
}
use go_microservices_chat.Go.Strings.{trim_space, to_lower, bytes, encode_hex}
use go_microservices_chat.Go.Time.{Time, second}
use go_microservices_chat.Auth.Context.{Context, requester_id}
use go_microservices_chat.User.Types.{
  User, RefreshToken, UserError, not_found, invalid_creds, token_invalid,
}
use go_microservices_chat.User.Repository.{Repository}

abbrev pub refresh_token_ttl : ℕ
refresh_token_ttl = 30 * 24 * 60 * 60 * second

-- What the service calls and does not implement: `unicode.ToLower`, `sha256.Sum256` and
-- `bcrypt.CompareHashAndPassword hash password == nil`.
pub record Crypto : Type 0 where
  pub lower : Char → Char
  pub sha256 : List ℕ → List ℕ
  pub compare_hash_and_password : String → String → Bool

-- What one call gets from outside: the answers of `s.now()` in the method and in `issueTokenPair`,
-- of `uuid.NewString()`, of `rand.Read` on 32 bytes, of `bcrypt.GenerateFromPassword` and of the
-- `TokenIssuer`. An error of theirs is its text.
pub record Call : Type 0 where
  pub now : Time
  pub issue_now : Time
  pub uuid : String
  pub random : Result String (List ℕ)
  pub generate_from_password : String → Result String String
  pub issue_access_token : String → String → Result String String

-- `email = strings.ToLower(strings.TrimSpace(email))`
unfoldable pub normalize_email : Crypto → String → String
normalize_email c email = to_lower c.lower (trim_space email)

unfoldable pub hash_token : Crypto → String → String
hash_token c raw = encode_hex (c.sha256 (bytes raw))

abbrev library : {A : Type 0} → Result String A → Result UserError A
library = convert foreign

unfoldable pub new_refresh_token_value : Call → Result UserError String
new_refresh_token_value k = elim k.random [
  | ok buf ↦ ok (encode_hex buf)
  | err e ↦ err (foreign e)
  | panic ↦ panic
]

-- `if errors.Is(err, ErrNotFound) { return to }; return err`
abbrev pub on_not_found : UserError → UserError → UserError
on_not_found to e = elim (root e) [ some not_found ↦ to | _ ↦ e ]

abbrev pub set_or_keep : Option String → String → String
set_or_keep none old = old
set_or_keep (some new) old = new

-- the refresh token is refused
abbrev pub unusable : RefreshToken → Time → Bool
unusable t now = elim t.revoked_at [ some at ↦ true | none ↦ ltb t.expires_at now ]

-- fmt.Errorf("hash password: %w", err)
abbrev hash_failure : String → UserError
hash_failure e = wrap "hash password: " (foreign e) ""

abbrev pub new_user : Call → String → String → String → String → User
new_user k email username display_name hash = record {
  id = k.uuid;
  email = email;
  username = username;
  password_hash = hash;
  display_name = display_name;
  avatar_url = "";
  status_text = "";
  created_at = k.now;
  updated_at = k.now;
}

abbrev pub new_token : Crypto → Call → User → String → RefreshToken
new_token c k u raw = record {
  id = k.uuid;
  user_id = u.id;
  token_hash = hash_token c raw;
  expires_at = k.issue_now + refresh_token_ttl;
  revoked_at = none;
  created_at = k.issue_now;
}

abbrev pub edited : Call → User → Option String → Option String → Option String → User
edited k u display_name avatar_url status_text = record u {
  display_name = set_or_keep display_name u.display_name;
  avatar_url = set_or_keep avatar_url u.avatar_url;
  status_text = set_or_keep status_text u.status_text;
  updated_at = k.now;
}

module _ {S : Type 0} (repo : Repository S) (c : Crypto) where
  unfoldable pub register : Call → String → String → String → String → Exec S UserError User
  register k email username display_name password = do
    let email = normalize_email c email
    let username = trim_space username
    let display_name = trim_space display_name
    if email == "" || username == "" || display_name == "" || password == ""
        then raise (wrap "" (sentinel invalid_creds) ": missing required field")
        else do
          hash ← lift (convert hash_failure (k.generate_from_password password))
          repo.create_user (new_user k email username display_name hash)
          pure (new_user k email username display_name hash)

  -- (access token, refresh token)
  unfoldable pub issue_token_pair : Call → User → Exec S UserError (String × String)
  issue_token_pair k u = do
    access ← lift (library (k.issue_access_token u.id u.username))
    raw ← lift (new_refresh_token_value k)
    repo.create_refresh_token (new_token c k u raw)
    pure (access, raw)

  unfoldable pub login : Call → String → String → Exec S UserError (String × String)
  login k email password = do
    u ←
        convert_err (on_not_found (sentinel invalid_creds))
          (repo.get_user_by_email (normalize_email c email))
    if c.compare_hash_and_password u.password_hash password
        then issue_token_pair k u
        else raise (sentinel invalid_creds)

  -- `Refresh` once the stored token has been accepted
  unfoldable pub rotate : Call → RefreshToken → Exec S UserError (String × String)
  rotate k stored = do
    repo.revoke_refresh_token stored.id k.now
    u ← repo.get_user_by_id stored.user_id
    issue_token_pair k u

  unfoldable pub refresh : Call → String → Exec S UserError (String × String)
  refresh k refresh_token = do
    stored ←
        convert_err (on_not_found (sentinel token_invalid))
          (repo.get_refresh_token_by_hash (hash_token c refresh_token))
    if unusable stored k.now then raise (sentinel token_invalid) else rotate k stored

  unfoldable pub get_me : Context → Exec S UserError User
  get_me ctx = elim (requester_id ctx) [
    | none ↦ raise (sentinel invalid_creds)
    | some id ↦ repo.get_user_by_id id
  ]

  unfoldable pub update_me :
      Context → Call → Option String → Option String → Option String → Exec S UserError User
  update_me ctx k display_name avatar_url status_text = elim (requester_id ctx) [
    | none ↦ raise (sentinel invalid_creds)
    | some id ↦ do
      u ← repo.get_user_by_id id
      repo.update_user (edited k u display_name avatar_url status_text)
      pure (edited k u display_name avatar_url status_text)
  ]

  unfoldable pub get_user : String → Exec S UserError User
  get_user id = repo.get_user_by_id id

  unfoldable pub batch_get_users : List String → Exec S UserError (List User)
  batch_get_users ids = repo.get_users_by_ids ids
