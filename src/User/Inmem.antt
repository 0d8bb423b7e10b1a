-- ===== src/User/Inmem.antt =====
-- services/user-service/internal/user/repository_inmem.go. The mutex makes each method atomic.
pub mod Invariant
pub mod Spent
use go_microservices_chat.Prelude.{String, Bool, ◌||◌, Option, none, some, List, [], ◌∷◌, ◌==◌}
use go_microservices_chat.Go.Dict.{Dict}
use go_microservices_chat.Go.Dict
use go_microservices_chat.Go.Errors.{sentinel}
use go_microservices_chat.Go.Exec.{Result, ok, err, Exec}
use go_microservices_chat.Go.Time.{Time}
use go_microservices_chat.User.Types.{User, RefreshToken, UserError, not_found, already_exists}
use go_microservices_chat.User.Repository.{Repository}

pub record InMemRepository : Type 0 where
  pub users : Dict User
  pub tokens : Dict RefreshToken

abbrev pub new_in_mem_repository : InMemRepository
new_in_mem_repository = record { users = Dict.empty; tokens = Dict.empty }

abbrev Method : Type 0 → Type 0
Method A = Exec InMemRepository UserError A

-- the test of the loop in `CreateUser`
abbrev pub clashes : User → User → Bool
clashes u existing = existing.email == u.email || existing.username == u.username

-- `v, ok := m[k]; if !ok { return ErrNotFound }`
abbrev pub found : {A : Type 0} → Option A → Result UserError A
found none = err (sentinel not_found)
found (some a) = ok a

unfoldable pub create_user : User → Method (Unit {0})
create_user u r = elim (Dict.find (clashes u) r.users) [
  | none ↦ (ok tt, record r { users = Dict.put r.users u.id u })
  | some existing ↦ (err (sentinel already_exists), r)
]

unfoldable pub get_user_by_id : String → Method User
get_user_by_id id r = (found (Dict.get r.users id), r)

-- the loop over `ids`
unfoldable pub users_at : Dict User → List String → List User
users_at users [] = []
users_at users (id ∷ ids) =
    let rest = users_at users ids in elim (Dict.get users id) [ none ↦ rest | some u ↦ u ∷ rest ]

unfoldable pub get_users_by_ids : List String → Method (List User)
get_users_by_ids ids r = (ok (users_at r.users ids), r)

unfoldable pub get_user_by_email : String → Method User
get_user_by_email email r = (found (Dict.find (λ u. u.email == email) r.users), r)

abbrev pub updated : User → User → User
updated existing u = record existing {
  display_name = u.display_name;
  avatar_url = u.avatar_url;
  status_text = u.status_text;
  updated_at = u.updated_at;
}

unfoldable pub update_user : User → Method (Unit {0})
update_user u r = elim (Dict.get r.users u.id) [
  | none ↦ (err (sentinel not_found), r)
  | some existing ↦ (ok tt, record r { users = Dict.put r.users u.id (updated existing u) })
]

unfoldable pub create_refresh_token : RefreshToken → Method (Unit {0})
create_refresh_token t r = (ok tt, record r { tokens = Dict.put r.tokens t.id t })

unfoldable pub get_refresh_token_by_hash : String → Method RefreshToken
get_refresh_token_by_hash hash r = (found (Dict.find (λ t. t.token_hash == hash) r.tokens), r)

unfoldable pub revoke_refresh_token : String → Time → Method (Unit {0})
revoke_refresh_token id revoked_at r = elim (Dict.get r.tokens id) [
  | none ↦ (err (sentinel not_found), r)
  | some t ↦ (
    ok tt,
    record r { tokens = Dict.put r.tokens id (record t { revoked_at = some revoked_at }) },
  )
]

abbrev pub inmem : Repository InMemRepository
inmem = record {
  create_user = create_user;
  get_user_by_id = get_user_by_id;
  get_users_by_ids = get_users_by_ids;
  get_user_by_email = get_user_by_email;
  update_user = update_user;
  create_refresh_token = create_refresh_token;
  get_refresh_token_by_hash = get_refresh_token_by_hash;
  revoke_refresh_token = revoke_refresh_token;
}
