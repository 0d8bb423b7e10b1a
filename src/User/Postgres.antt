-- ===== src/User/Postgres.antt =====
-- services/user-service/internal/user/repository.go. The statements are those of the source, white space
-- apart.
pub mod Tables
pub mod Equivalence
pub mod Tokens
pub mod Batch
mod Tests
use Prim.Native.String.{◌++◌ as append}
use go_microservices_chat.Prelude.{String, Option, none, some, List, [], ◌∷◌}
use go_microservices_chat.Go.Exec.{Result, ok, Exec, convert_err, lift, ◌>>=◌, pure}
use go_microservices_chat.Go.Sql.{
  Value, null, text, texts, time, Row, SqlError, Pool, null_string, cannot_scan, scan_all, as_is,
  unique_as, no_rows_as, affected_or,
}
use go_microservices_chat.Go.Time.{Time}
use go_microservices_chat.User.Repository.{Repository}
use go_microservices_chat.User.Types.{User, RefreshToken, UserError, not_found, already_exists}

abbrev pub insert_user : String
insert_user =
    "INSERT INTO users (id, email, username, password_hash, display_name, avatar_url, status_text, created_at, updated_at) VALUES ($1, $2, $3, $4, $5, $6, $7, $8, $9)"

abbrev pub select_users : String → String
select_users =
    append
      "SELECT id, email, username, password_hash, display_name, COALESCE(avatar_url, ''), COALESCE(status_text, ''), created_at, updated_at FROM users "

abbrev pub set_profile : String
set_profile =
    "UPDATE users SET display_name = $2, avatar_url = $3, status_text = $4, updated_at = $5 WHERE id = $1"

abbrev pub insert_token : String
insert_token =
    "INSERT INTO refresh_tokens (id, user_id, token_hash, expires_at, created_at) VALUES ($1, $2, $3, $4, $5)"

abbrev pub select_token : String
select_token =
    "SELECT id, user_id, token_hash, expires_at, revoked_at, created_at FROM refresh_tokens WHERE token_hash = $1"

abbrev pub set_revoked : String
set_revoked = "UPDATE refresh_tokens SET revoked_at = $2 WHERE id = $1"

abbrev pub scan_user : Row → Result SqlError User
scan_user
      (text id
        ∷ text email
        ∷ text username
        ∷ text hash
        ∷ text name
        ∷ text avatar
        ∷ text status
        ∷ time created
        ∷ time edited
        ∷ []) =
    ok (record {
      id = id;
      email = email;
      username = username;
      password_hash = hash;
      display_name = name;
      avatar_url = avatar;
      status_text = status;
      created_at = created;
      updated_at = edited;
    })
scan_user r = cannot_scan

abbrev pub scan_token : Row → Result SqlError RefreshToken
scan_token (text id ∷ text user_id ∷ text hash ∷ time expires ∷ revoked ∷ time created ∷ []) =
    let read : Option Time → Result SqlError RefreshToken = λ at. ok (record {
      id = id;
      user_id = user_id;
      token_hash = hash;
      expires_at = expires;
      revoked_at = at;
      created_at = created;
    }) in
    elim revoked [
      | null ↦ read none
      | text s ↦ cannot_scan
      | texts l ↦ cannot_scan
      | time t ↦ read (some t)
      | Value.int n ↦ cannot_scan
      | Value.bool b ↦ cannot_scan
    ]
scan_token r = cannot_scan

module _ {S : Type 0} (pool : Pool S) where
  unfoldable pub create_user : User → Exec S UserError (Unit {0})
  unfolding null_string
  create_user u =
      convert_err (unique_as already_exists) (
        pool.exec insert_user (
          text u.id
          ∷ text u.email
          ∷ text u.username
          ∷ text u.password_hash
          ∷ text u.display_name
          ∷ null_string u.avatar_url
          ∷ null_string u.status_text
          ∷ time u.created_at
          ∷ time u.updated_at
          ∷ []))
      >>= λ n. pure tt

  -- `getUser`
  unfoldable pub get_user : String → Value → Exec S UserError User
  get_user condition arg =
      convert_err (no_rows_as not_found)
        (pool.query_row (select_users condition) (arg ∷ []) >>= λ r. lift (scan_user r))

  unfoldable pub get_user_by_id : String → Exec S UserError User
  unfolding get_user
  get_user_by_id id = get_user "WHERE id = $1" (text id)

  unfoldable pub get_users_by_ids : List String → Exec S UserError (List User)
  get_users_by_ids [] = pure []
  get_users_by_ids (id ∷ ids) = convert_err as_is (
      pool.query (select_users "WHERE id = ANY($1)") (texts (id ∷ ids) ∷ []) >>= λ rows.
      lift (scan_all scan_user rows))

  unfoldable pub get_user_by_email : String → Exec S UserError User
  unfolding get_user
  get_user_by_email email = get_user "WHERE email = $1" (text email)

  unfoldable pub update_user : User → Exec S UserError (Unit {0})
  unfolding null_string affected_or
  update_user u =
      convert_err as_is (
        pool.exec set_profile (
          text u.id
          ∷ text u.display_name
          ∷ null_string u.avatar_url
          ∷ null_string u.status_text
          ∷ time u.updated_at
          ∷ []))
      >>= λ n. affected_or not_found n

  unfoldable pub create_refresh_token : RefreshToken → Exec S UserError (Unit {0})
  create_refresh_token t =
      convert_err as_is (
        pool.exec insert_token (
          text t.id
          ∷ text t.user_id
          ∷ text t.token_hash
          ∷ time t.expires_at
          ∷ time t.created_at
          ∷ []))
      >>= λ n. pure tt

  unfoldable pub get_refresh_token_by_hash : String → Exec S UserError RefreshToken
  get_refresh_token_by_hash hash =
      convert_err (no_rows_as not_found)
        (pool.query_row select_token (text hash ∷ []) >>= λ r. lift (scan_token r))

  unfoldable pub revoke_refresh_token : String → Time → Exec S UserError (Unit {0})
  unfolding affected_or
  revoke_refresh_token id revoked_at =
      convert_err as_is (pool.exec set_revoked (text id ∷ time revoked_at ∷ [])) >>= λ n.
      affected_or not_found n

  abbrev pub postgres : Repository S
  postgres = record {
    create_user = create_user;
    get_user_by_id = get_user_by_id;
    get_users_by_ids = get_users_by_ids;
    get_user_by_email = get_user_by_email;
    update_user = update_user;
    create_refresh_token = create_refresh_token;
    get_refresh_token_by_hash = get_refresh_token_by_hash;
    revoke_refresh_token = revoke_refresh_token;
  }
