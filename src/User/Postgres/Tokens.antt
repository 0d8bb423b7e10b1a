-- ===== src/User/Postgres/Tokens.antt =====
-- The refresh tokens of services/user-service/internal/user/repository.go, over a table that behaves as
-- the documentation of PostgreSQL says, against the repository in memory.
mod Tests
use mathlib.Core.Option.{some-injective}
use go_microservices_chat.Prelude.{
  String, ◌≡◌, ◌≢◌, refl, sym, ap, ◌∙◌, Option, none, some, [], ◌∷◌, arith, ◌==◌, eq_iff, inl, inr,
  Option-cases, if◌then◌else◌,
}
use go_microservices_chat.Go.Dict
use go_microservices_chat.Go.Dict.Laws.{get-put, find_hit, find_miss}
use go_microservices_chat.Go.Exec.{Result, ok, err, Exec, ◌>>=◌}
use go_microservices_chat.Go.Sql.{SqlError, Value, null, no_rows, text, time, Row, Pool}
use go_microservices_chat.Go.Time.{Time}
use go_microservices_chat.User.Types.{RefreshToken, UserError}
use go_microservices_chat.User.Inmem as Memory
use go_microservices_chat.User.Inmem.{InMemRepository, inmem}
use go_microservices_chat.User.Inmem.Invariant.{TokensValid}
use go_microservices_chat.User.Postgres as Postgres
use go_microservices_chat.User.Postgres.{
  scan_token, postgres, insert_token, select_token, set_revoked,
}
use go_microservices_chat.User.Repository.{Repository}

abbrev pub nullable : Option Time → Value
nullable none = null
nullable (some t) = time t

abbrev pub token_row : RefreshToken → Row
token_row t =
    text t.id
    ∷ text t.user_id
    ∷ text t.token_hash
    ∷ time t.expires_at
    ∷ nullable t.revoked_at
    ∷ time t.created_at
    ∷ []

abbrev pub token_args : RefreshToken → Row
token_args t =
    text t.id ∷ text t.user_id ∷ text t.token_hash ∷ time t.expires_at ∷ time t.created_at ∷ []

abbrev pub revoked : RefreshToken → Time → RefreshToken
revoked t at = record t { revoked_at = some at }

row_at : RefreshToken → Option Time → Row
row_at t at =
    text t.id
    ∷ text t.user_id
    ∷ text t.token_hash
    ∷ time t.expires_at
    ∷ nullable at
    ∷ time t.created_at
    ∷ []

scan-row_at :
    (t : RefreshToken) (at : Option Time)
    → scan_token (row_at t at) ≡ ok (record t { revoked_at = at })
unfolding row_at
scan-row_at t none = refl
scan-row_at t (some at) = refl

scan-token_row : (t : RefreshToken) → scan_token (token_row t) ≡ ok t
unfolding row_at
scan-token_row t = scan-row_at t t.revoked_at

-- The table `refresh_tokens` of a database, as the row under each primary key. `Fits` says of a token
-- and a database that the row keeps the constraints of the table but for its keys, `IsUuid` that a text
-- is a UUID as PostgreSQL prints it, `Whole` that a time is a whole number of microseconds.
pub record TokensTable {S : Type 0} (pool : Pool S) (held : S → String → Option RefreshToken)
    (Fits : RefreshToken → S → Type 0) (IsUuid : String → Type 0) (Whole : Time → Type 0)
    : Type 0 where
  pub stores :
      (t : RefreshToken) (s : S)
      → Fits t s
      → t.revoked_at ≡ none
      → held s t.id ≡ none
      → ((id : String) (w : RefreshToken) → held s id ≡ some w → w.token_hash ≢ t.token_hash)
      → (s' : S) × (pool.exec insert_token (token_args t) s ≡ (ok 1, s'))
        × ((id : String) → held s' id ≡ (if t.id == id then some t else held s id))
  pub finds :
      (hash id : String) (s : S) (t : RefreshToken)
      → held s id ≡ some t
      → t.token_hash ≡ hash
      → ((j : String) (w : RefreshToken) → held s j ≡ some w → w.token_hash ≡ hash → w ≡ t)
      → pool.query_row select_token (text hash ∷ []) s ≡ (ok (token_row t), s)
  pub finds_nothing :
      (hash : String) (s : S)
      → ((id : String) (w : RefreshToken) → held s id ≡ some w → w.token_hash ≢ hash)
      → pool.query_row select_token (text hash ∷ []) s ≡ (err (no_rows "no rows in result set"), s)
  pub revokes :
      (id : String) (at : Time) (t : RefreshToken) (s : S)
      → IsUuid id
      → Whole at
      → held s id ≡ some t
      → (s' : S) × (pool.exec set_revoked (text id ∷ time at ∷ []) s ≡ (ok 1, s'))
        × ((j : String) → held s' j ≡ (if id == j then some (revoked t at) else held s j))
  pub revokes_nothing :
      (id : String) (at : Time) (s : S)
      → IsUuid id
      → Whole at
      → held s id ≡ none
      → pool.exec set_revoked (text id ∷ time at ∷ []) s ≡ (ok 0, s)

pub data TokenOperation : Type 0 where
  stores_token : RefreshToken → TokenOperation
  finds_token : String → TokenOperation
  revokes_token : String → Time → TokenOperation

pub data TokenAnswer : Type 0 where
  done : Result UserError (Unit {0}) → TokenAnswer
  found : Result UserError RefreshToken → TokenAnswer

abbrev pub run_token : {S : Type 0} → Repository S → TokenOperation → S → TokenAnswer × S
run_token repo (stores_token t) s = let (a, s') = repo.create_refresh_token t s in (done a, s')
run_token repo (finds_token hash) s =
    let (a, s') = repo.get_refresh_token_by_hash hash s in (found a, s')
run_token repo (revokes_token id at) s =
    let (a, s') = repo.revoke_refresh_token id at s in (done a, s')

-- no two tokens have one hash
abbrev pub DistinctHashes : InMemRepository → Type 0
DistinctHashes r =
    (j k : String) (t w : RefreshToken)
    → Dict.get r.tokens j ≡ some t
    → Dict.get r.tokens k ≡ some w
    → t.token_hash ≡ w.token_hash
    → j ≡ k

module _ {S : Type 0} (pool : Pool S) (held : S → String → Option RefreshToken)
    (Fits : RefreshToken → S → Type 0) (IsUuid : String → Type 0) (Whole : Time → Type 0)
    (table : TokensTable pool held Fits IsUuid Whole) where
  abbrev pub SameTokens : S → InMemRepository → Type 0
  SameTokens s r = (id : String) → held s id ≡ Dict.get r.tokens id

  -- a new token has a new id and a new hash, and is not revoked
  abbrev pub AllowedToken : S → InMemRepository → TokenOperation → Type 0
  AllowedToken s r (stores_token t) =
      Fits t s
      × (t.revoked_at ≡ none)
      × (Dict.get r.tokens t.id ≡ none)
      × ((id : String) (w : RefreshToken)
          → Dict.get r.tokens id ≡ some w
          → w.token_hash ≢ t.token_hash)
  AllowedToken s r (finds_token hash) = Unit
  AllowedToken s r (revokes_token id at) = IsUuid id × Whole at

  abbrev TokensMatch : TokenOperation → S → InMemRepository → Type 0
  TokensMatch op s r =
      ((run_token (postgres pool) op s).0 ≡ (run_token inmem op r).0)
      × SameTokens (run_token (postgres pool) op s).1 (run_token inmem op r).1

  scanned :
      (hash : String) (s : S) (t : RefreshToken)
      → pool.query_row select_token (text hash ∷ []) s ≡ (ok (token_row t), s)
      → Postgres.get_refresh_token_by_hash pool hash s ≡ (ok t, s)
  unfolding Postgres.get_refresh_token_by_hash ◌>>=◌
  scanned hash s t e = rw e (rw (scan-token_row t) refl)

  missed :
      (hash : String) (s : S)
      → pool.query_row select_token (text hash ∷ []) s ≡ (err (no_rows "no rows in result set"), s)
      → Postgres.get_refresh_token_by_hash pool hash s ≡ (Memory.found none, s)
  unfolding Postgres.get_refresh_token_by_hash ◌>>=◌
  missed hash s e = rw e refl

  match_stores :
      (t : RefreshToken) (s : S) (r : InMemRepository)
      → AllowedToken s r (stores_token t)
      → SameTokens s r
      → TokensMatch (stores_token t) s r
  unfolding Postgres.create_refresh_token Memory.create_refresh_token ◌>>=◌
  match_stores t s r (fits, unrevoked, fresh, hashes) same =
      let (s', at, after) =
        table.stores t s fits unrevoked (same t.id ∙ fresh)
          (λ id w h. hashes id w (sym (same id) ∙ h)) in
      rw at (refl, λ id. ground (arith, after id, same id, get-put r.tokens t.id id t))

  match_finds :
      (hash : String) (s : S) (r : InMemRepository)
      → TokensValid r.tokens
      → DistinctHashes r
      → SameTokens s r
      → TokensMatch (finds_token hash) s r
  unfolding Memory.get_refresh_token_by_hash
  match_finds hash s r v distinct same =
      elim (Option-cases (Dict.find (λ w. w.token_hash == hash) r.tokens)) [
        | inl e ↦
            let nothing = table.finds_nothing hash s (λ id w h p. absurd (
              ground (
                arith,
                eq_iff w.token_hash hash,
                find_miss (λ x. x.token_hash == hash) r.tokens id w e (sym (same id) ∙ h),
              ))) in
            rw (missed hash s nothing) (rw (e, Memory.get_refresh_token_by_hash) (refl, same))
        | inr (t, e) ↦
            let (k, at, hit) = find_hit (λ w. w.token_hash == hash) r.tokens t v.is_map e in
            let hashed = (eq_iff t.token_hash hash).0 hit in
            let one = table.finds hash k s t (same k ∙ at) hashed (λ j w h p.
              let key = distinct j k w t (sym (same j) ∙ h) at (p ∙ sym hashed) in
              some-injective w t (sym h ∙ ap (held s) key ∙ same k ∙ at)) in
            rw (scanned hash s t one) (rw (e, Memory.get_refresh_token_by_hash) (refl, same))
      ]

  match_revokes :
      (id : String) (at : Time) (s : S) (r : InMemRepository)
      → IsUuid id
      → Whole at
      → SameTokens s r
      → TokensMatch (revokes_token id at) s r
  unfolding Postgres.revoke_refresh_token Memory.revoke_refresh_token ◌>>=◌
  match_revokes id at s r uuid whole same = elim (Option-cases (Dict.get r.tokens id)) [
    | inl e ↦
        rw (table.revokes_nothing id at s uuid whole (same id ∙ e))
          (rw (e, Memory.revoke_refresh_token) (refl, same))
    | inr (t, e) ↦
        let (s', g, after) = table.revokes id at t s uuid whole (same id ∙ e) in
        rw g (
          rw (e, Memory.revoke_refresh_token)
            (refl, λ j. ground (arith, after j, same j, get-put r.tokens id j (revoked t at))))
  ]

  -- The Postgres repository implements the one in memory for refresh tokens: where both hold the same
  -- tokens, storing one, finding one by its hash and revoking one get the same answer from both, errors
  -- included, and both hold the same tokens afterwards. A token that is stored is not revoked, has a new
  -- id and a new hash and keeps the other constraints of the table, a token that is revoked is named by
  -- a UUID and a time of whole microseconds, and in memory no two tokens have one hash.
  pub token_operation :
      (op : TokenOperation) (s : S) (r : InMemRepository)
      → TokensValid r.tokens
      → DistinctHashes r
      → SameTokens s r
      → AllowedToken s r op
      → ((run_token (postgres pool) op s).0 ≡ (run_token inmem op r).0)
        × SameTokens (run_token (postgres pool) op s).1 (run_token inmem op r).1
  token_operation (stores_token t) s r v d same a = match_stores t s r a same
  token_operation (finds_token hash) s r v d same a = match_finds hash s r v d same
  token_operation (revokes_token id at) s r v d same a = match_revokes id at s r a.0 a.1 same
