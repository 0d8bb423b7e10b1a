-- ===== src/User/Postgres/Tokens/Tests.antt =====
-- The theorem on refresh tokens over a table that is a map.
use go_microservices_chat.Prelude.{
  ℕ, String, ◌≡◌, ◌≢◌, refl, sym, ap, ◌∙◌, Option, none, some, List, [], ◌∷◌, arith, ◌==◌, eq_iff,
  if◌then◌else◌,
}
use go_microservices_chat.Go.Dict.{Dict, IsMap}
use go_microservices_chat.Go.Dict
use go_microservices_chat.Go.Dict.Laws.{
  empty-IsMap, put-IsMap, get-empty, get-put, find_nothing, find_something,
}
use go_microservices_chat.Go.Exec.{Result, ok, err}
use go_microservices_chat.Go.Sql.{Value, text, time, SqlError, no_rows, other, Row, Pool}
use go_microservices_chat.Go.Time.{Time}
use go_microservices_chat.User.Types.{RefreshToken}
use go_microservices_chat.User.Inmem.{new_in_mem_repository, inmem}
use go_microservices_chat.User.Inmem.Invariant.{IsValid-new_in_mem_repository}
use go_microservices_chat.User.Postgres.{postgres, insert_token}
use go_microservices_chat.User.Postgres.Tokens.{
  TokensTable, token_row, revoked, stores_token, run_token, SameTokens, token_operation,
}

abbrev Table : Type 0
Table = (tokens : Dict RefreshToken) × IsMap tokens

abbrev held : Table → String → Option RefreshToken
held s id = Dict.get s.0 id

abbrev write : Table → RefreshToken → Table
write s t = (Dict.put s.0 t.id t, put-IsMap s.0 t.id t s.1)

abbrev insert_rows : List Value → Table → Result SqlError ℕ × Table
insert_rows (text id ∷ text user_id ∷ text hash ∷ time expires ∷ time created ∷ []) s = (
  ok 1,
  write s (record {
    id = id;
    user_id = user_id;
    token_hash = hash;
    expires_at = expires;
    revoked_at = none;
    created_at = created;
  }),
)
insert_rows args s = (err (other "bad arguments"), s)

abbrev marked : Table → String → Time → Option RefreshToken → Result SqlError ℕ × Table
marked s id at none = (ok 0, s)
marked s id at (some t) =
    (ok 1, (Dict.put s.0 id (revoked t at), put-IsMap s.0 id (revoked t at) s.1))

abbrev update_rows : List Value → Table → Result SqlError ℕ × Table
update_rows (text id ∷ time at ∷ []) s = marked s id at (Dict.get s.0 id)
update_rows args s = (err (other "bad arguments"), s)

abbrev found_token : Option RefreshToken → Result SqlError Row
found_token none = err (no_rows "no rows in result set")
found_token (some t) = ok (token_row t)

abbrev selected : List Value → Table → Result SqlError Row
selected (text hash ∷ []) s = found_token (Dict.find (λ t. t.token_hash == hash) s.0)
selected args s = err (other "bad arguments")

abbrev map_pool : Pool Table
map_pool = record {
  exec = λ sql args s. if sql == insert_token then insert_rows args s else update_rows args s;
  query = λ sql args s. (err (other "not used"), s);
  query_row = λ sql args s. (selected args s, s);
}

map_pool-table : TokensTable map_pool held (λ t s. Unit) (λ id. Unit) (λ at. Unit)
map_pool-table = record {
  stores = λ t s fits unrevoked fresh hashes. (
    write s t,
    ap (λ at. (ok 1, write s (record t { revoked_at = at }))) (sym unrevoked),
    λ id. get-put s.0 t.id id t,
  );
  finds = λ hash id s t at hashed one.
      let (w, k, e, at', hit) =
        find_something (λ x. x.token_hash == hash) s.0 id t s.1 at
          ((eq_iff t.token_hash hash).1 hashed) in
      ap (λ o. (found_token o, s)) (e ∙ ap some (one k w at' ((eq_iff w.token_hash hash).0 hit)));
  finds_nothing = λ hash s apart.
      ap (λ o. (found_token o, s))
        (find_nothing (λ x. x.token_hash == hash) s.0 s.1
          (λ id w h. let e = apart id w h in ground (arith, eq_iff w.token_hash hash)));
  revokes = λ id at t s uuid whole e. (
    (Dict.put s.0 id (revoked t at), put-IsMap s.0 id (revoked t at) s.1),
    ap (marked s id at) e,
    λ j. get-put s.0 id j (revoked t at),
  );
  revokes_nothing = λ id at s uuid whole e. ap (marked s id at) e;
}

abbrev token : RefreshToken
token = record {
  id = "t1";
  user_id = "u1";
  token_hash = "h";
  expires_at = 9;
  revoked_at = none;
  created_at = 1;
}

abbrev nothing : Table
nothing = (Dict.empty, empty-IsMap)

no_token : (id : String) (w : RefreshToken) → Dict.get new_in_mem_repository.tokens id ≢ some w
no_token id w e = absurd (ground (arith, get-empty {V = RefreshToken} id))

token_operation_example :
    ((run_token (postgres map_pool) (stores_token token) nothing).0
      ≡ (run_token inmem (stores_token token) new_in_mem_repository).0)
    × SameTokens map_pool held
        (λ t s. Unit)
        (λ id. Unit)
        (λ at. Unit)
        map_pool-table
        (run_token (postgres map_pool) (stores_token token) nothing).1
        (run_token inmem (stores_token token) new_in_mem_repository).1
token_operation_example =
    token_operation map_pool held (λ t s. Unit) (λ id. Unit) (λ at. Unit) map_pool-table
      (stores_token token) nothing new_in_mem_repository IsValid-new_in_mem_repository.tokens
      (λ j k t w e f same. absurd (no_token j t e)) (λ id. refl)
      (tt, refl, get-empty "t1", λ id w e. absurd (no_token id w e))
