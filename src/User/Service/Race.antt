-- ===== src/User/Service/Race.antt =====
-- `Refresh` as the sequence of its calls to the repository, each atomic under the mutex, and two
-- requests whose calls interleave.
use go_microservices_chat.Prelude.{
  ℕ, ◌≤◌, String, ◌≡◌, none, some, List, [], ◌∷◌, arith, ◌==◌, if◌then◌else◌,
}
use go_microservices_chat.Go.Dict.{Dict}
use go_microservices_chat.Go.Dict
use go_microservices_chat.Go.Dict.Laws.{get-put_self, find_hit}
use go_microservices_chat.Go.Errors.{sentinel}
use go_microservices_chat.Go.Exec.{Result, ok, err, panic, ◌>>=◌, convert}
use go_microservices_chat.Go.Strings.{encode_hex}
use go_microservices_chat.User.Types.{User, RefreshToken, UserError, token_invalid}
use go_microservices_chat.User.Inmem.{
  InMemRepository, inmem, get_user_by_id, create_refresh_token, get_refresh_token_by_hash,
  revoke_refresh_token,
}
use go_microservices_chat.User.Inmem.Invariant.{IsValid}
use go_microservices_chat.User.Service.{
  Crypto, Call, hash_token, on_not_found, unusable, refresh, rotate, issue_token_pair,
  new_refresh_token_value,
}

-- where a request stands: before its first call, before the revocation, before the look-up of the
-- user, before the new pair, and done
pub data Phase : Type 0 where
  looking : Phase
  revoking : RefreshToken → Phase
  loading : RefreshToken → Phase
  issuing : User → Phase
  finished : Result UserError (String × String) → Phase

-- the request that makes its next call, at each point of the schedule
pub data Turn : Type 0 where
  one two : Turn

module _ (c : Crypto) where
  -- the check of the row that was found
  abbrev looked : Call → Result UserError RefreshToken → Phase
  looked k (ok t) = if unusable t k.now then finished (err (sentinel token_invalid)) else revoking t
  looked k (err e) = finished (err e)
  looked k panic = finished panic

  abbrev revoked : RefreshToken → Result UserError (Unit {0}) → Phase
  revoked t (ok _) = loading t
  revoked t (err e) = finished (err e)
  revoked t panic = finished panic

  abbrev loaded : Result UserError User → Phase
  loaded (ok u) = issuing u
  loaded (err e) = finished (err e)
  loaded panic = finished panic

  -- one call to the repository, and the code up to the next one
  pub step : Call → String → Phase → InMemRepository → Phase × InMemRepository
  step k raw looking r =
      let (a, s) = get_refresh_token_by_hash (hash_token c raw) r in
      (looked k (convert (on_not_found (sentinel token_invalid)) a), s)
  step k raw (revoking t) r = let (a, s) = revoke_refresh_token t.id k.now r in (revoked t a, s)
  step k raw (loading t) r = let (a, s) = get_user_by_id t.user_id r in (loaded a, s)
  step k raw (issuing u) r = let (a, s) = issue_token_pair inmem c k u r in (finished a, s)
  step k raw (finished a) r = (finished a, r)

  abbrev pub next : Call → String → Phase × InMemRepository → Phase × InMemRepository
  next k raw (p, r) = step k raw p r

  -- Four steps with nothing in between are the method `Refresh`.
  pub refresh-step :
      (k : Call) (raw : String) (r : InMemRepository)
      → next k raw (next k raw (next k raw (step k raw looking r)))
        ≡ (finished (refresh inmem c k raw r).0, (refresh inmem c k raw r).1)
  unfolding step refresh rotate get_refresh_token_by_hash revoke_refresh_token get_user_by_id ◌>>=◌
  refresh-step k raw r = ground arith

  -- two requests with the same token, and the store
  pub record Both : Type 0 where
    pub first : Phase
    pub second : Phase
    pub store : InMemRepository

  abbrev turn : Call → Call → String → Both → Turn → Both
  turn k l raw b one =
      let (p, s) = step k raw b.first b.store in record { first = p; second = b.second; store = s }
  turn k l raw b two =
      let (p, s) = step l raw b.second b.store in record { first = b.first; second = p; store = s }

  pub run : Call → Call → String → Both → List Turn → Both
  run k l raw b [] = b
  run k l raw b (t ∷ ts) = run k l raw (turn k l raw b t) ts

  module _ (k l : Call) (raw : String) (r : InMemRepository) (t : RefreshToken) (u : User) where
    -- Two requests with the same refresh token, which both look its row up before either revokes it, both
    -- succeed, and each gets its own new refresh token. The row is not revoked and not expired at either
    -- time, its user exists, and the signer and the random source succeed for both.
    pub both_refresh :
        (access access' : String) (buf buf' : List ℕ)
        → IsValid r
        → Dict.find (λ w. w.token_hash == hash_token c raw) r.tokens ≡ some t
        → t.revoked_at ≡ none
        → k.now ≤ t.expires_at
        → l.now ≤ t.expires_at
        → Dict.get r.users t.user_id ≡ some u
        → k.issue_access_token u.id u.username ≡ ok access
        → l.issue_access_token u.id u.username ≡ ok access'
        → k.random ≡ ok buf
        → l.random ≡ ok buf'
        → (let b =
              run k l raw
                (record { first = looking; second = looking; store = r })
                (one ∷ two ∷ one ∷ two ∷ one ∷ two ∷ one ∷ two ∷ []) in
            (b.first ≡ finished (ok (access, encode_hex buf)))
            × (b.second ≡ finished (ok (access', encode_hex buf'))))
    unfolding run step get_refresh_token_by_hash revoke_refresh_token get_user_by_id
        create_refresh_token issue_token_pair new_refresh_token_value ◌>>=◌
    both_refresh access access' buf buf' v found unrevoked in_time in_time' mine a a' b b' =
        let (id, at, _) =
          find_hit (λ w. w.token_hash == hash_token c raw) r.tokens t v.tokens.is_map found in
        ground (
          arith,
          v.tokens.at_id id t at,
          get-put_self r.tokens t.id (record t { revoked_at = some k.now }),
        )
