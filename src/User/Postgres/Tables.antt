-- ===== src/User/Postgres/Tables.antt =====
-- What is assumed of the table of users, and the calls that are compared: the Postgres repository of
-- services/user-service/internal/user/repository.go beside the one in memory.
use go_microservices_chat.Prelude.{
  String, ◌≡◌, ◌≢◌, ◌⊎◌, Option, none, some, [], ◌∷◌, ◌==◌, if◌then◌else◌,
}
use go_microservices_chat.Go.Exec.{Result, ok, err}
use go_microservices_chat.Go.Sql.{
  SqlError, coded, no_rows, text, time, Row, Pool, null_string, unique_violation,
}
use go_microservices_chat.User.Types.{User, UserError}
use go_microservices_chat.User.Postgres.{insert_user, select_users, set_profile}
use go_microservices_chat.User.Repository.{Repository}

-- the nine columns of a row, after COALESCE
abbrev pub user_row : User → Row
user_row u =
    text u.id
    ∷ text u.email
    ∷ text u.username
    ∷ text u.password_hash
    ∷ text u.display_name
    ∷ text u.avatar_url
    ∷ text u.status_text
    ∷ time u.created_at
    ∷ time u.updated_at
    ∷ []

abbrev pub found_row : Option User → Result SqlError Row
found_row none = err (no_rows "no rows in result set")
found_row (some u) = ok (user_row u)

abbrev pub insert_args : User → Row
insert_args u =
    text u.id
    ∷ text u.email
    ∷ text u.username
    ∷ text u.password_hash
    ∷ text u.display_name
    ∷ null_string u.avatar_url
    ∷ null_string u.status_text
    ∷ time u.created_at
    ∷ time u.updated_at
    ∷ []

abbrev pub profile_args : User → Row
profile_args u =
    text u.id
    ∷ text u.display_name
    ∷ null_string u.avatar_url
    ∷ null_string u.status_text
    ∷ time u.updated_at
    ∷ []

-- what the UPDATE makes of a row
abbrev pub changed : User → User → User
changed old u = record old {
  display_name = u.display_name;
  avatar_url = u.avatar_url;
  status_text = u.status_text;
  updated_at = u.updated_at;
}

-- The table `users` of a database, as the row under each primary key, with NULL as "". `Fits` says of a
-- user and a database that the types and lengths of the columns hold the row exactly, `IsUuid` that
-- a text is a UUID as PostgreSQL prints it; other texts are errors there.
pub record UsersTable {S : Type 0} (pool : Pool S) (row : S → String → Option User)
    (Fits : User → S → Type 0) (IsUuid : String → Type 0) : Type 0 where
  pub inserts :
      (u : User) (s : S)
      → Fits u s
      → row s u.id ≡ none
      → ((id : String) (w : User)
          → row s id ≡ some w
          → (w.email ≢ u.email) × (w.username ≢ u.username))
      → (s' : S) × (pool.exec insert_user (insert_args u) s ≡ (ok 1, s'))
        × ((id : String) → row s' id ≡ (if u.id == id then some u else row s id))
  pub refuses :
      (u : User) (s : S) (id : String) (w : User)
      → Fits u s
      → row s id ≡ some w
      → (w.email ≡ u.email) ⊎ (w.username ≡ u.username)
      → (msg : String) × (pool.exec insert_user (insert_args u) s
          ≡ (err (coded unique_violation msg), s))
  pub selects_id :
      (id : String) (s : S)
      → IsUuid id
      → pool.query_row (select_users "WHERE id = $1") (text id ∷ []) s ≡ (found_row (row s id), s)
  pub selects_email :
      (email id : String) (s : S) (u : User)
      → row s id ≡ some u
      → u.email ≡ email
      → ((j : String) (w : User) → row s j ≡ some w → w.email ≡ email → w ≡ u)
      → pool.query_row (select_users "WHERE email = $1") (text email ∷ []) s ≡ (ok (user_row u), s)
  pub selects_nobody :
      (email : String) (s : S)
      → ((id : String) (w : User) → row s id ≡ some w → w.email ≢ email)
      → pool.query_row (select_users "WHERE email = $1") (text email ∷ []) s ≡ (found_row none, s)
  pub changes :
      (u old : User) (s : S)
      → Fits u s
      → row s u.id ≡ some old
      → (s' : S) × (pool.exec set_profile (profile_args u) s ≡ (ok 1, s'))
        × ((id : String) → row s' id ≡ (if u.id == id then some (changed old u) else row s id))
  pub changes_nobody :
      (u : User) (s : S)
      → Fits u s
      → row s u.id ≡ none
      → pool.exec set_profile (profile_args u) s ≡ (ok 0, s)

-- the calls on the table; `GetUsersByIDs` is not among them, since SQL leaves the order of its rows open
pub data Operation : Type 0 where
  creates : User → Operation
  finds_id : String → Operation
  finds_email : String → Operation
  edits : User → Operation

pub data Answer : Type 0 where
  done : Result UserError (Unit {0}) → Answer
  found : Result UserError User → Answer

abbrev pub run : {S : Type 0} → Repository S → Operation → S → Answer × S
run repo (creates u) s = let (a, s') = repo.create_user u s in (done a, s')
run repo (finds_id id) s = let (a, s') = repo.get_user_by_id id s in (found a, s')
run repo (finds_email email) s = let (a, s') = repo.get_user_by_email email s in (found a, s')
run repo (edits u) s = let (a, s') = repo.update_user u s in (done a, s')
